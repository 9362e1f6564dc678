-- ===== src/Tests/Samples.antt =====
-- Concrete values: an operating system, names of the SDK, endpoints, clients and connections.
use cnf_nsm.Common.{refl, inr, true, Bool, [], ◌∷◌, none, some, Bytes, codes}
use cnf_nsm.Errors.{ok, err, external}
use cnf_nsm.Proto.{
  kernel_interface, ConnectionInterfaceType, NetworkServiceClient, NetworkServiceEndpoint,
}
use cnf_nsm.External.{Os, SdkNames, Connection, NsConfiguration}
use cnf_nsm.Endpoint.{NsmEndpoint, new_nsm_endpoint, request}
use cnf_nsm.Demux.{EndpointReg, NsmEndpointDemux, Handlers, DemuxEnv}
use cnf_nsm.EndpointDescriptor.Passing.{IsPassing}
use cnf_nsm.EndpointDescriptor.{NsmEndpointDescriptor, Composite, endpoint_handlers}
use cnf_nsm.ClientDescriptor.{ClientSdk}

abbrev pub sdk_names : SdkNames
sdk_names = record {
  workspace_env = codes "NSM_WORKSPACE";
  kernel_mechanism = codes "KERNEL";
  memif_mechanism = codes "MEMIF";
  interface_name_key = codes "name";
}

abbrev pub sample_os : Os
sample_os = record { lookup_env = λ name. some (codes "/ws"); mkdir_all = λ path. none }

abbrev pub conn_of : Bytes → Connection
conn_of id = record {
  id = id;
  network_service = codes "fw";
  labels = (codes "zone", codes "x") ∷ [];
  parameters = [];
  socket_filename = codes "s";
}

abbrev pub conn_a : Connection
conn_a = conn_of (codes "a")

abbrev pub conn_b : Connection
conn_b = conn_of (codes "b")

abbrev pub endpoint_of : Bool → Bytes → ConnectionInterfaceType → NetworkServiceEndpoint
endpoint_of single label type = record {
  network_service = codes "fw";
  advertised_labels = record { key = codes "app"; value = codes "cnf" } ∷ [];
  single_client = single;
  interface_name_prefix = codes "if";
  interface_name_suffix_from_label = label;
  interface_type = type;
  ip_addresses = codes "10.0.0.1/24" ∷ [];
  phys_address = codes "aa";
}

-- Two clients are open, under the indexes 0 and 1.
abbrev pub open_two : NetworkServiceEndpoint → NsmEndpoint
open_two cfg =
    let one = (request sample_os sdk_names none (new_nsm_endpoint cfg) conn_a).1 in
    (request sample_os sdk_names none one conn_b).1

abbrev pub open_one : NetworkServiceEndpoint → NsmEndpoint
open_one cfg = (request sample_os sdk_names none (new_nsm_endpoint cfg) conn_a).1

abbrev pub env_config : NsConfiguration
env_config = record {
  mechanism_type = [];
  outgoing_nsc_name = [];
  outgoing_nsc_labels = [];
  advertise_nse_name = [];
  advertise_nse_labels = [];
  ip_address = [];
  nsm_client_socket = codes "/sock";
}

abbrev pub sample_env : DemuxEnv
sample_env = record {
  new_nsm_connection = λ c. none;
  init = none;
  socket_cleanup = λ s. none;
  listen = λ s. none;
  parse_labels = λ s. [];
  on_register = λ r. ok (codes "fw-1");
  on_remove = λ n. none;
  on_put = λ k. none;
  on_delete = λ k. none;
}

-- The registry refuses to remove an endpoint.
abbrev pub failing_env : DemuxEnv
failing_env = record sample_env { on_remove = λ n. some (external (codes "gone")) }

-- A composite that only hands calls on.
abbrev pub plain_composite : Composite
plain_composite = record { request = λ f. f; close = λ f. f }

pub plain_composite-IsPassing : IsPassing plain_composite
plain_composite-IsPassing = record {
  prepare = λ c. c;
  same_id = λ c. refl;
  same_service = λ c. refl;
  request_passes = λ f e c. inr refl;
  close_passes = λ f e c. inr refl;
}

abbrev pub sample_handlers : Handlers NsmEndpoint
sample_handlers = endpoint_handlers sample_os sdk_names plain_composite none (λ e. [])

abbrev pub sample_client : ConnectionInterfaceType → NetworkServiceClient
sample_client type = record {
  name = codes "c";
  network_service = codes "fw";
  outgoing_labels = [];
  interface_name = codes "eth";
  interface_type = type;
  ip_addresses = [];
  phys_address = [];
}

abbrev pub sample_sdk : ClientSdk
sample_sdk = record {
  on_new = λ c. ok (codes "client-1");
  on_connect = λ client name mechanism descr. ok conn_a;
  on_close = λ client conn. none;
  on_destroy = λ client. none;
}

-- The network service refuses the connection.
abbrev pub refusing_sdk : ClientSdk
refusing_sdk = record sample_sdk {
  on_connect = λ client name mechanism descr. err (external (codes "refused"));
}

abbrev pub kernel_endpoint : NetworkServiceEndpoint
kernel_endpoint = endpoint_of true [] kernel_interface

-- A registered endpoint with a connection, in a demultiplexer that serves the socket.
abbrev pub open_reg : EndpointReg NsmEndpoint
open_reg = record { ep_name = codes "fw-1"; service = open_one kernel_endpoint }

abbrev pub sample_demux : NsmEndpointDemux NsmEndpoint
sample_demux = record {
  connected = true;
  nsm_conn = true;
  grpc_server = true;
  serving = 1;
  registry = [];
  endpoints = (codes "fw", open_reg) ∷ [];
}

abbrev pub sample_descriptor : NsmEndpointDescriptor
sample_descriptor = record { notif_publisher = some []; ep_demux = sample_demux }
