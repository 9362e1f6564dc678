-- ===== src/Demux.antt =====
-- `NSMEndpointDemux` of plugins/nsmplugin/descriptor/nsm_endpoint.go: it routes the calls of NSM to the
-- endpoint of the network service. Every method holds the lock, so a call is one step.
pub mod Routing
pub mod Registering
pub mod Endpoints
pub mod Serving
use cnf_nsm.Common.{
  ℕ, suc, ◌+◌, Bool, true, false, List, [], ◌∷◌, Option, none, some, Bytes, codes, if◌then◌else◌,
}
use cnf_nsm.Common.GoMap.{GoMap, lookup, insert, erase}
use cnf_nsm.Errors.{Error, Result, ok, err, no_such_endpoint, no_such_service}
use cnf_nsm.External.{Connection, NsConfiguration}

-- What a registered service does in one call: answer a request, close a connection, and close all
-- connections. `S` is the state of the service.
pub record Handlers (S : Type 0) : Type 0 where
  pub request : S → Connection → (Connection × Option Error) × S
  pub close : S → Connection → Option Error × S
  pub close_connections : S → Option Error × S

pub record EndpointReg (S : Type 0) : Type 0 where
  pub ep_name : Bytes
  pub service : S

-- What is sent to the registry of NSM.
pub record NseRegistration : Type 0 where
  pub network_service_name : Bytes
  pub payload : Bytes
  pub labels : GoMap Bytes

pub data RegistryCall : Type 0 where
  register_nse : NseRegistration → RegistryCall
  remove_nse : Bytes → RegistryCall

-- What the SDK and the operating system answer during one call of the demultiplexer. A connection to
-- NSM that fails may still return an object, which the flag tells.
pub record DemuxEnv : Type 0 where
  pub new_nsm_connection : NsConfiguration → Option (Error × Bool)
  pub init : Option Error
  pub socket_cleanup : Bytes → Option Error
  pub listen : Bytes → Option Error
  pub parse_labels : Bytes → GoMap Bytes
  pub on_register : NseRegistration → Result Bytes
  pub on_remove : Bytes → Option Error
  pub on_put : Bytes → Option Error
  pub on_delete : Bytes → Option Error

-- `nsm_conn` and `grpc_server` say whether the fields are set; `serving` counts the goroutines that
-- serve the socket; `registry` is the calls of the registry, the latest first.
pub record NsmEndpointDemux (S : Type 0) : Type 0 where
  pub connected : Bool
  pub nsm_conn : Bool
  pub grpc_server : Bool
  pub serving : ℕ
  pub registry : List RegistryCall
  pub endpoints : GoMap (EndpointReg S)

unfoldable pub registration : DemuxEnv → NsConfiguration → NseRegistration
registration env configuration = record {
  network_service_name = configuration.advertise_nse_name;
  payload = codes "IP";
  labels = env.parse_labels configuration.advertise_nse_labels;
}

module _ {S : Type 0} where
  unfoldable pub new_nsm_endpoint_demux : NsmEndpointDemux S
  new_nsm_endpoint_demux = record {
    connected = false;
    nsm_conn = false;
    grpc_server = false;
    serving = 0;
    registry = [];
    endpoints = [];
  }

  -- Each step of the connection leaves its traces, also where a later step fails.
  start_server : DemuxEnv → NsConfiguration → NsmEndpointDemux S → Option Error × NsmEndpointDemux S
  start_server env configuration x = elim (env.init) [
    | some failed ↦ (some failed, x)
    | none ↦ elim (env.socket_cleanup configuration.nsm_client_socket) [
      | some failed ↦ (some failed, x)
      | none ↦ elim (env.listen configuration.nsm_client_socket) [
        | some failed ↦ (some failed, x)
        | none ↦ (none, record x { serving = suc x.serving; connected = true })
      ]
    ]
  ]

  connect : DemuxEnv → NsConfiguration → NsmEndpointDemux S → Option Error × NsmEndpointDemux S
  unfolding start_server
  connect env configuration x = elim (env.new_nsm_connection configuration) [
    | some (failed, returned) ↦ (some failed, record x { nsm_conn = returned })
    | none ↦ start_server env configuration (record x { nsm_conn = true; grpc_server = true })
  ]

  unfoldable pub ensure_connected :
      DemuxEnv → NsConfiguration → NsmEndpointDemux S → Option Error × NsmEndpointDemux S
  unfolding connect
  ensure_connected env configuration x =
      if x.connected then (none, x) else connect env configuration x

  store_reg : Bytes → S → Result Bytes → NsmEndpointDemux S → Option Error × NsmEndpointDemux S
  store_reg nse_name service (err failed) x = (some failed, x)
  store_reg nse_name service (ok endpoint_name) x = (
    none,
    record x {
      endpoints =
          insert nse_name (record { ep_name = endpoint_name; service = service }) x.endpoints;
    },
  )

  unfoldable pub register_endpoint :
      DemuxEnv → NsConfiguration → S → NsmEndpointDemux S → Option Error × NsmEndpointDemux S
  unfolding store_reg
  register_endpoint env configuration service x =
      let sent = registration env configuration in
      store_reg configuration.advertise_nse_name service (env.on_register sent)
        (record x { registry = register_nse sent ∷ x.registry })

  unfoldable pub add_endpoint :
      DemuxEnv → NsConfiguration → S → NsmEndpointDemux S → Option Error × NsmEndpointDemux S
  add_endpoint env configuration service x =
      let (failed, x') = ensure_connected env configuration x in
      elim failed [ some e ↦ (some e, x') | none ↦ register_endpoint env configuration service x' ]

  -- Writes back what a handler made of the service.
  unfoldable pub put_service : Bytes → EndpointReg S → S → NsmEndpointDemux S → NsmEndpointDemux S
  put_service nse_name ep service x = record x {
    endpoints = insert nse_name (record ep { service = service }) x.endpoints;
  }

  unregister : Bytes → Bytes → Option Error → NsmEndpointDemux S → Option Error × NsmEndpointDemux S
  unregister nse_name ep_name (some failed) x = (some failed, x)
  unregister nse_name ep_name none x = (none, record x { endpoints = erase nse_name x.endpoints })

  -- Closes the connections, then removes the endpoint from the registry, then forgets it.
  unfoldable pub delete_registered :
      Handlers S
      → DemuxEnv
      → Bytes
      → EndpointReg S
      → NsmEndpointDemux S
      → Option Error × NsmEndpointDemux S
  unfolding unregister put_service
  delete_registered h env nse_name ep x =
      let (failed, service) = h.close_connections ep.service in
      let x' = put_service nse_name ep service x in
      elim failed [
        | some e ↦ (some e, x')
        | none ↦
            unregister nse_name ep.ep_name (env.on_remove ep.ep_name)
              (record x' { registry = remove_nse ep.ep_name ∷ x'.registry })
      ]

  unfoldable pub delete_endpoint :
      Handlers S → DemuxEnv → Bytes → NsmEndpointDemux S → Option Error × NsmEndpointDemux S
  delete_endpoint h env nse_name x = elim (lookup nse_name x.endpoints) [
    | none ↦ (some (no_such_endpoint nse_name), x)
    | some ep ↦ delete_registered h env nse_name ep x
  ]

  unfoldable pub demux_request :
      Handlers S
      → NsmEndpointDemux S
      → Connection
      → (Connection × Option Error) × NsmEndpointDemux S
  unfolding put_service
  demux_request h x conn = elim (lookup conn.network_service x.endpoints) [
    | none ↦ ((conn, some (no_such_service conn.network_service)), x)
    | some ep ↦
        let (answer, service) = h.request ep.service conn in
        (answer, put_service conn.network_service ep service x)
  ]

  unfoldable pub demux_close :
      Handlers S → NsmEndpointDemux S → Connection → Option Error × NsmEndpointDemux S
  unfolding put_service
  demux_close h x conn = elim (lookup conn.network_service x.endpoints) [
    | none ↦ (some (no_such_service conn.network_service), x)
    | some ep ↦
        let (failed, service) = h.close ep.service conn in
        (failed, put_service conn.network_service ep service x)
  ]
