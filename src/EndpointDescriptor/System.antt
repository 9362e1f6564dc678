-- ===== src/EndpointDescriptor/System.antt =====
-- The agent's endpoints as a whole: what holds after any calls of the descriptor and of NSM.
use cnf_nsm.Common.{
  ◌≤◌, ◌≡◌, ◌∙◌, refl, Bool, true, false, not, ◌&&◌, List, [], Option, some, Bytes, arith, length,
  if◌then◌else◌,
}
use cnf_nsm.Common.GoMap.{lookup}
use cnf_nsm.Proto.{NetworkServiceEndpoint}
use cnf_nsm.Errors.{Error}
use cnf_nsm.External.{
  Os, SdkNames, Connection, NsConfiguration, ChangeRequest, InterfaceKind, same_kind, configured,
}
use cnf_nsm.External.Kinds.{interface_kind}
use cnf_nsm.External.Shared.{about, configured-same}
use cnf_nsm.Endpoint.{NsmConnection, NsmEndpoint, Next, new_nsm_endpoint, close_connections}
use cnf_nsm.Endpoint.Names.{open_name}
use cnf_nsm.Endpoint.Invariant.{
  IsValid, new_nsm_endpoint-IsValid, request-IsValid, close-IsValid, close_all-IsValid,
}
use cnf_nsm.Demux.{
  Handlers, EndpointReg, DemuxEnv, new_nsm_endpoint_demux, add_endpoint, demux_request, demux_close,
}
use cnf_nsm.Demux.Serving.{
  Keeps, AllServices, IsServing, add_endpoint-IsServing, delete_endpoint-IsServing,
  demux_request-IsServing, demux_close-IsServing, add_endpoint-AllServices,
  delete_endpoint-AllServices, demux_request-AllServices, demux_close-AllServices,
}
use cnf_nsm.EndpointDescriptor.{
  Notification, Composite, NsmEndpointDescriptor, endpoint_handlers, new_nsm_endpoint_descriptor,
  publish, create, delete_nse, endpoint_configuration,
}

-- What the SDK documents of a composite: it acts on the endpoint at its end through that endpoint's
-- handlers only, so it keeps what they keep.
pub record IsTransparent (composite : Composite) : Type 1 where
  pub request_keeps :
      (P : NsmEndpoint → Type 0)
      (f : NsmEndpoint → Connection → (Connection × Option Error) × NsmEndpoint)
      → ((e : NsmEndpoint) (conn : Connection) → P e → P (f e conn).1)
      → (e : NsmEndpoint) (conn : Connection) → P e
      → P (composite.request f e conn).1
  pub close_keeps :
      (P : NsmEndpoint → Type 0) (f : NsmEndpoint → Connection → Option Error × NsmEndpoint)
      → ((e : NsmEndpoint) (conn : Connection) → P e → P (f e conn).1)
      → (e : NsmEndpoint) (conn : Connection) → P e
      → P (composite.close f e conn).1

-- One call: the agent creates or deletes an endpoint, or NSM asks for a connection or its end.
pub data SystemStep (names : SdkNames) (composite : Composite)
    : NsmEndpointDescriptor → NsmEndpointDescriptor → Type 0 where
  creates :
      (env : DemuxEnv) (from_env : NsConfiguration) (cfg : NetworkServiceEndpoint)
      (d : NsmEndpointDescriptor)
      → SystemStep names composite d (create names env from_env cfg d).1
  deletes :
      (os : Os) (next : Option Next) (order : NsmEndpoint → List NsmConnection) (env : DemuxEnv)
      (cfg : NetworkServiceEndpoint) (d : NsmEndpointDescriptor)
      → SystemStep names composite d
          (delete_nse (endpoint_handlers os names composite next order) env cfg d).1
  requests :
      (os : Os) (next : Option Next) (order : NsmEndpoint → List NsmConnection)
      (d : NsmEndpointDescriptor) (conn : Connection)
      → SystemStep names composite d (record d {
        ep_demux =
            (demux_request (endpoint_handlers os names composite next order) d.ep_demux conn).1;
      })
  closes :
      (os : Os) (next : Option Next) (order : NsmEndpoint → List NsmConnection)
      (d : NsmEndpointDescriptor) (conn : Connection)
      → SystemStep names composite d (record d {
        ep_demux =
            (demux_close (endpoint_handlers os names composite next order) d.ep_demux conn).1;
      })

pub data SystemReach (names : SdkNames) (composite : Composite)
    : NsmEndpointDescriptor → Type 0 where
  started : (injected : Bool) → SystemReach names composite (new_nsm_endpoint_descriptor injected)
  after :
      {d d' : NsmEndpointDescriptor}
      → SystemReach names composite d
      → SystemStep names composite d d'
      → SystemReach names composite d'

-- The socket is served by one goroutine, and every registered endpoint is valid.
pub record IsSound (d : NsmEndpointDescriptor) : Type 0 where
  pub serving : IsServing d.ep_demux
  pub services : AllServices IsValid d.ep_demux.endpoints

started-IsSound : (injected : Bool) → IsSound (new_nsm_endpoint_descriptor injected)
unfolding new_nsm_endpoint_descriptor new_nsm_endpoint_demux lookup
started-IsSound injected = record {
  serving = record { served = refl; ready = λ h. cc };
  services = λ name ep h. cc;
}

pub ep_demux-publish :
    (action : Bytes → Option Error → Notification) (answers : Bytes → Option Error)
    (cfg : NetworkServiceEndpoint) (d : NsmEndpointDescriptor)
    → (publish action answers cfg d).ep_demux ≡ d.ep_demux
unfolding publish
ep_demux-publish action answers cfg d = ground arith

pub ep_demux-create :
    (names : SdkNames) (env : DemuxEnv) (from_env : NsConfiguration) (cfg : NetworkServiceEndpoint)
    (d : NsmEndpointDescriptor)
    → (create names env from_env cfg d).1.ep_demux
      ≡ (add_endpoint env
          (endpoint_configuration names from_env cfg)
          (new_nsm_endpoint cfg)
          d.ep_demux).1
unfolding create publish
ep_demux-create names env from_env cfg d = ground arith

pub create-AllServices :
    (names : SdkNames) (env : DemuxEnv) (from_env : NsConfiguration) (cfg : NetworkServiceEndpoint)
    (d : NsmEndpointDescriptor)
    → AllServices IsValid d.ep_demux.endpoints
    → AllServices IsValid (create names env from_env cfg d).1.ep_demux.endpoints
create-AllServices names env from_env cfg d services =
    let same = ep_demux-create names env from_env cfg d in
    rw same (
      add_endpoint-AllServices IsValid env (endpoint_configuration names from_env cfg)
        (new_nsm_endpoint cfg) d.ep_demux (new_nsm_endpoint-IsValid cfg) services)

create-IsSound :
    (names : SdkNames) (env : DemuxEnv) (from_env : NsConfiguration) (cfg : NetworkServiceEndpoint)
    (d : NsmEndpointDescriptor)
    → IsSound d
    → IsSound (create names env from_env cfg d).1
create-IsSound names env from_env cfg d s =
    let same = ep_demux-create names env from_env cfg d in
    record {
      serving = rw same (
          add_endpoint-IsServing env (endpoint_configuration names from_env cfg)
            (new_nsm_endpoint cfg) d.ep_demux s.serving);
      services = create-AllServices names env from_env cfg d s.services;
    }

pub delete_nse-AllServices :
    (h : Handlers NsmEndpoint)
    → Keeps IsValid h
    → (env : DemuxEnv) (cfg : NetworkServiceEndpoint) (d : NsmEndpointDescriptor)
    → AllServices IsValid d.ep_demux.endpoints
    → AllServices IsValid (delete_nse h env cfg d).1.ep_demux.endpoints
unfolding delete_nse
delete_nse-AllServices h keeps env cfg d services =
    rw ep_demux-publish
      (delete_endpoint-AllServices IsValid h keeps env cfg.network_service d.ep_demux services)

delete_nse-IsSound :
    (h : Handlers NsmEndpoint)
    → Keeps IsValid h
    → (env : DemuxEnv) (cfg : NetworkServiceEndpoint) (d : NsmEndpointDescriptor) → IsSound d
    → IsSound (delete_nse h env cfg d).1
unfolding delete_nse
delete_nse-IsSound h keeps env cfg d s = record {
  serving =
      rw ep_demux-publish
        (delete_endpoint-IsServing h env cfg.network_service d.ep_demux s.serving);
  services = delete_nse-AllServices h keeps env cfg d s.services;
}

module _ (names : SdkNames) (composite : Composite) (transparent : IsTransparent composite) where
  pub endpoint_handlers-Keeps :
      (os : Os) (next : Option Next) (order : NsmEndpoint → List NsmConnection)
      → Keeps IsValid (endpoint_handlers os names composite next order)
  unfolding endpoint_handlers close_connections
  endpoint_handlers-Keeps os next order = record {
    request_keeps = transparent.request_keeps IsValid _ (request-IsValid os names next);
    close_keeps = transparent.close_keeps IsValid _ (close-IsValid os names next);
    close_connections_keeps = λ e v. close_all-IsValid os names e (order e) v;
  }

  SystemStep-IsSound :
      {d d' : NsmEndpointDescriptor} → SystemStep names composite d d' → IsSound d → IsSound d'
  SystemStep-IsSound (creates env from_env cfg d) s = create-IsSound names env from_env cfg d s
  SystemStep-IsSound (deletes os next order env cfg d) s =
      delete_nse-IsSound _ (endpoint_handlers-Keeps os next order) env cfg d s
  SystemStep-IsSound (requests os next order d conn) s =
      let h = endpoint_handlers os names composite next order in
      record {
        serving = demux_request-IsServing h d.ep_demux conn s.serving;
        services =
            demux_request-AllServices IsValid h (endpoint_handlers-Keeps os next order) d.ep_demux
              conn s.services;
      }
  SystemStep-IsSound (closes os next order d conn) s =
      let h = endpoint_handlers os names composite next order in
      record {
        serving = demux_close-IsServing h d.ep_demux conn s.serving;
        services =
            demux_close-AllServices IsValid h (endpoint_handlers-Keeps os next order) d.ep_demux
              conn s.services;
      }

  pub SystemReach-IsSound : {d : NsmEndpointDescriptor} → SystemReach names composite d → IsSound d
  SystemReach-IsSound (started injected) = started-IsSound injected
  SystemReach-IsSound (after r s) = SystemStep-IsSound s (SystemReach-IsSound r)

  -- After any calls of the agent and of NSM, at most one goroutine serves the socket of NSM: one if the
  -- demultiplexer is connected, and then it has its connection and its server, and none otherwise. The
  -- composite of the SDK is transparent.
  pub system_serving :
      (d : NsmEndpointDescriptor)
      → SystemReach names composite d
      → (d.ep_demux.serving ≡ (if d.ep_demux.connected then 1 else 0))
        × ((d.ep_demux.connected && not (d.ep_demux.nsm_conn && d.ep_demux.grpc_server)) ≡ false)
  system_serving d r =
      let s = (SystemReach-IsSound r).serving in (s.served, ground (arith, s.ready))

  -- After any calls of the agent and of NSM, a registered endpoint for a single client has at most one
  -- connection, if the composite of the SDK is transparent.
  pub system_single_client :
      (d : NsmEndpointDescriptor) (name : Bytes) (ep : EndpointReg NsmEndpoint)
      → SystemReach names composite d
      → lookup name d.ep_demux.endpoints ≡ some ep
      → ep.service.cfg.single_client ≡ true
      → length ep.service.connections ≤ 1
  system_single_client d name ep r found = ((SystemReach-IsSound r).services name ep found).single

  -- After any calls of the agent and of NSM, the interfaces that a registered endpoint has configured
  -- are those of its open connections: if its interface names end in indexes, an interface of a kind and
  -- a name is configured exactly if the kind is that of the endpoint, of Linux or of VPP, and the name is
  -- the prefix with the index of an open connection of it. So it is in the agent's client, whatever
  -- others send to it, as long as they send nothing about that kind and name. The composite of the SDK
  -- is transparent.
  pub system_interfaces :
      (d : NsmEndpointDescriptor) (name : Bytes) (ep : EndpointReg NsmEndpoint)
      (sent : List ChangeRequest) (k : InterfaceKind) (n : Bytes)
      → SystemReach names composite d
      → lookup name d.ep_demux.endpoints ≡ some ep
      → ep.service.cfg.interface_name_suffix_from_label ≡ []
      → about k n sent ≡ about k n ep.service.localclient
      → configured k sent n ≡ (
          same_kind (interface_kind ep.service.cfg.interface_type) k
          && open_name ep.service.cfg.interface_name_prefix ep.service.connections n)
  system_interfaces d name ep sent k n r found by_index own =
      configured-same k n sent ep.service.localclient own
      ∙ (((SystemReach-IsSound r).services name ep found).tracks by_index).live k n
