-- ===== src/Mesh.antt =====
-- Two agents, with Network Service Mesh between them: the connections that the descriptor of clients of
-- the one asks for (plugins/nsmplugin/descriptor/nsm_client.go) are requests to the demultiplexer of
-- the other (nsm_endpoint.go).
pub mod Granting
pub mod Connecting
pub mod Disconnecting
pub mod Population
use cnf_nsm.Common.{List, Option, none, some, Bytes}
use cnf_nsm.Errors.{Error, Result, ok, err}
use cnf_nsm.Proto.{NetworkServiceClient}
use cnf_nsm.External.{Os, SdkNames, Connection, NsConfiguration}
use cnf_nsm.Endpoint.{NsmConnection, NsmEndpoint}
use cnf_nsm.Demux.{Handlers, NsmEndpointDemux, demux_request, demux_close}
use cnf_nsm.EndpointDescriptor.{Composite, endpoint_handlers}
use cnf_nsm.ClientDescriptor.{ClientSdk, NsmClientMetadata, client_configuration}

-- The handlers of an endpoint that is the last of its composite, as the one of `Create` is.
abbrev pub last_handlers :
    Os → SdkNames → Composite → (NsmEndpoint → List NsmConnection) → Handlers NsmEndpoint
last_handlers os names composite order = endpoint_handlers os names composite none order

-- What NSM makes of what the client is asking for, as `Create` does.
abbrev pub asked_for :
    (Bytes → Bytes → Bytes → Bytes → Connection)
    → SdkNames
    → NsConfiguration
    → NetworkServiceClient
    → NsmClientMetadata
    → Connection
asked_for asks names from_env cfg m =
    asks m.nsm_client cfg.interface_name (client_configuration names from_env cfg).mechanism_type
      cfg.name

abbrev pub answered : Connection × Option Error → Result Connection
answered (conn, none) = ok conn
answered (conn, some x) = err x

-- The SDK of the client's agent, where NSM makes a request of what it is asked for, and hands the
-- answer of the endpoint's agent back.
abbrev pub linked :
    Handlers NsmEndpoint
    → NsmEndpointDemux NsmEndpoint
    → (Bytes → Bytes → Bytes → Bytes → Connection)
    → ClientSdk
    → ClientSdk
linked h x asks sdk = record sdk {
  on_connect = λ client name mechanism descr.
      answered (demux_request h x (asks client name mechanism descr)).0;
}

-- The SDK where NSM takes the end of a connection to the endpoint's agent.
abbrev pub closing : Handlers NsmEndpoint → NsmEndpointDemux NsmEndpoint → ClientSdk → ClientSdk
closing h x sdk = record sdk { on_close = λ client conn. (demux_close h x conn).0 }
