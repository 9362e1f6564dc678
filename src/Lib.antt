-- ===== src/Lib.antt =====
-- The Network Service Mesh plugin of the CNF agents, and the CRD plugin beside it.
--
-- The NSM plugin (plugins/nsmplugin) lets an agent of ligato take part in Network Service Mesh. The KV
-- scheduler of the agent calls a descriptor for each configured item. The descriptor of clients opens a
-- connection to a network service and has the agent configure its interface. The descriptor of
-- endpoints makes an endpoint, registers it through the demultiplexer, and publishes notifications
-- about its labels. NSM sends the requests for connections, and for their end, to the demultiplexer,
-- which hands each to the endpoint of its network service; the endpoint has the agent configure and
-- remove the interfaces. The CRD plugin (plugins/crdplugin) reflects resources of Kubernetes into the
-- data store of the agents.
--
-- The files, by the code that they model:
--   Endpoint            NSMEndpoint of plugins/nsmplugin/descriptor/nsm_endpoint.go: new_nsm_endpoint is
--                       NewNSMEndpoint, request is Request, close is Close, close_connections is
--                       CloseConnections, build_interface_config is buildInterfaceConfig, and so on
--   Demux               NSMEndpointDemux of the same file: add_endpoint, delete_endpoint, demux_request,
--                       demux_close
--   EndpointDescriptor  NSMEndpointDescriptor of the same file: validate, create, and delete_nse for
--                       Delete
--   ClientDescriptor    NSMClientDescriptor of plugins/nsmplugin/descriptor/nsm_client.go, with the
--                       metadata of plugins/nsmplugin/nsmetadata/metadata.go: delete_client is Delete
--   Naming              the functions of these two files that both descriptors use
--   Adapter             plugins/nsmplugin/descriptor/adapter: nsmclient.go and nsmendpoint.go, one text
--                       with two types; Scheduling has the calls of the scheduler on it
--   Keys                proto/nsm/keys.go: the keys of notifications; its models are in Adapter.Models
--   Proto               the messages of proto/nsm/nsm.pb.go, their getters, and the names of the enum
--   NsmPlugin           plugins/nsmplugin/nsmplugin.go and options.go
--   Crd.DeepCopy        plugins/crdplugin/pkg/apis/pantheontech/v1: types.go, zz_generated.deepcopy.go
--   Crd.Scheme          register.go there, and scheme/register.go and fake/register.go of
--                       plugins/crdplugin/pkg/client/clientset/versioned
--   Crd.Handler         plugins/crdplugin/cnfconfig/cnfconfig_handler.go
--   Crd.Client          plugins/crdplugin/pkg/client/clientset/versioned: typed/pantheontech/v1 with the
--                       client of the CRD, each method of it one request; Config has clientset.go and
--                       pantheontech_client.go, Fake and FakeClientset the fake clients beside them,
--                       Interface what both are used as, and
--                       Lister plugins/crdplugin/pkg/client/listers/pantheontech/v1/cnfconfiguration.go
--   Crd.Plugin          plugins/crdplugin/plugin_impl_crd.go and options.go; Crd.Controller has what the
--                       controller is filled with
--   Informers           plugins/crdplugin/pkg/client/informers/externalversions: factory.go, and in
--                       Configurations generic.go and the informers of pantheontech and of its v1
--   Agents              cmd: the agents, and how they put the plugins of ligato together
--   Mesh                two agents, where NSM takes what the descriptor of clients of the one asks for to
--                       the demultiplexer of the other, and in Population the clients of many agents,
--                       while that agent creates and deletes endpoints
--   Errors, External    errors, and the values exchanged with the SDK of NSM, ligato and the system
--   GoLib               what the code uses of Go's strings, strconv, path and hash/fnv
--   Common              names, helpers and lemmas that all share; Common.GoMap is Go's map
--   Tests               runs of the theorems at concrete inputs
--
-- How it is modelled. A method takes its receiver and returns it anew beside its result. The calls
-- of the demultiplexer and of the endpoints behind it hold one lock, so each is one step, and the
-- states that sequences of calls lead to are indexed data types (Endpoint.Reach,
-- EndpointDescriptor.System, EndpointDescriptor.Announced, ClientDescriptor.Sending, ClientDescriptor.Leases, Mesh.Population, Crd.Plugin.Running,
-- Informers.Started, Informers.Scoped). What the calls keep to, apart from how, is a state machine
-- of its own: Endpoint.Allocation has the index of each client of an endpoint, and
-- EndpointDescriptor.Registry the network services of an agent with the allocations of their
-- clients; Refinement beside each relates the code to it, call by call, with the answer of each. What code outside the repository answers
-- - the SDK of NSM, the registry, the operating system, Kubernetes - is an argument of each call,
-- so it may change from call to call. The composite of the SDK is an argument too; where a theorem
-- needs it to be transparent, it acts on the endpoint through that endpoint's own handlers only; where
-- one needs it to pass calls on (EndpointDescriptor.Passing), it hands a call on to the endpoint or
-- refuses it, and a request for a connection that it prepared, with the identifier and the network
-- service that were asked for. A
-- Go map is an association list, and the order of an iteration over it, where it can matter, is an
-- argument. Requests to the agent's client are kept as a list, the latest first, of one endpoint or
-- of all clients; the interfaces of Linux and those of VPP are told apart, since one name may be used
-- by both; the calls of the SDK and the notifications are kept with their answers, and one that fails
-- has no effect. A goroutine that sends one is listed as started. An integer that the code counts
-- with is small and has no bound here; the hash of FNV-1a keeps its 32 bits, and the timeouts of
-- the client of the CRD are `int64`, in two's complement.
--
-- Fuel. The search for a free index runs on one more round than there are connections, since so many
-- connections use no more indexes. The digits of a number are taken with one more round than the
-- number itself.
--
-- Not modelled: logs and spans; nil messages in the descriptors; the marshalling that protoc generates;
-- schemes, caches and REST clients of Kubernetes, which are arguments; what the plugins of ligato do
-- that the agents put together; the server of gRPC once it is started.
pub mod Common
pub mod GoLib
pub mod Proto
pub mod Keys
pub mod Errors
pub mod External
pub mod Naming
pub mod Endpoint
pub mod Demux
pub mod EndpointDescriptor
pub mod ClientDescriptor
pub mod Adapter
pub mod Crd
pub mod NsmPlugin
pub mod Mesh
pub mod Agents
pub mod Informers
pub mod Tests
