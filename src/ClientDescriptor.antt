-- ===== src/ClientDescriptor.antt =====
-- `NSMClientDescriptor` of plugins/nsmplugin/descriptor/nsm_client.go: validation of clients, their
-- connection to a network service, and its end.
pub mod Lifecycle
pub mod Interface
pub mod Order
pub mod Sending
pub mod Leases
use cnf_nsm.Common.{
  Bool, true, false, List, [], ◌∷◌, ◌++◌, Option, none, some, Bytes, codes, str_eq, if◌then◌else◌,
  not, ◌&&◌, ◌||◌,
}
use cnf_nsm.GoLib.FilePath.{join_path}
use cnf_nsm.Proto.{
  ConnectionInterfaceType, default_interface, kernel_interface, mem_interface, unnamed,
  NetworkServiceClient,
}
use cnf_nsm.Errors.{
  Error, Result, ok, err, ◌>>=◌, invalid_value, client_without_name, client_without_network_service,
  client_without_interface, unsupported_interface_type,
}
use cnf_nsm.External.{
  Os, SdkNames, Connection, NsConfiguration, InterfaceConfig, existing, memif, ChangeRequest,
  update, delete,
}
use cnf_nsm.Naming.{
  nsm_base_dir, nsm_mechanism_from_interface_type, nsm_labels_from_proto, generate_dummy_subnet,
}

abbrev pub nsm_client_descriptor_name : Bytes
nsm_client_descriptor_name = codes "nsm-client-descriptor"

-- The clients of the SDK are told apart by a name of their own, as by their addresses. What ends a
-- connection or a client stands with what the SDK answered to it.
pub data SdkCall : Type 0 where
  new_client : Bytes → SdkCall
  connect : Bytes → Connection → SdkCall
  close : Bytes → Connection → Option Error → SdkCall
  destroy : Bytes → Option Error → SdkCall

-- What the SDK answers during one call of the descriptor.
pub record ClientSdk : Type 0 where
  pub on_new : NsConfiguration → Result Bytes
  pub on_connect : Bytes → Bytes → Bytes → Bytes → Result Connection
  pub on_close : Bytes → Connection → Option Error
  pub on_destroy : Bytes → Option Error

pub record NsmClientMetadata : Type 0 where
  pub nsm_client : Bytes
  pub nsm_conn : Connection

-- `sdk` is the clients and connections that were made and the calls to end them, with their outcomes, `spawned` the change
-- requests that goroutines were started to send; the latest is the first. The goroutines may send in
-- any order.
pub record NsmClientDescriptor : Type 0 where
  pub sdk : List SdkCall
  pub spawned : List ChangeRequest

unfoldable pub new_nsm_client_descriptor : NsmClientDescriptor
new_nsm_client_descriptor = record { sdk = []; spawned = [] }

unfoldable pub validate : NetworkServiceClient → Option Error
validate cfg =
    if str_eq cfg.name []
    then some (invalid_value client_without_name (codes "name"))
    else if str_eq cfg.network_service []
    then some (invalid_value client_without_network_service (codes "network_service"))
    else if str_eq cfg.interface_name []
    then some (invalid_value client_without_interface (codes "interface_name"))
    else none

unfoldable pub existing_config : NetworkServiceClient → InterfaceConfig
existing_config cfg = existing (record {
  name = cfg.interface_name;
  host_if_name = [];
  enabled = true;
  ip_addresses = cfg.ip_addresses;
  phys_address = cfg.phys_address;
})

unfoldable pub memif_config : NetworkServiceClient → Bytes → InterfaceConfig
memif_config cfg socket_filename = memif (record {
  name = cfg.interface_name;
  enabled = true;
  ip_addresses = cfg.ip_addresses;
  phys_address = cfg.phys_address;
  master = false;
  socket_filename = socket_filename;
})

-- The switch over the type of the interface.
unfoldable pub typed_config :
    Os
    → SdkNames
    → NetworkServiceClient
    → Connection
    → ConnectionInterfaceType
    → Result (List InterfaceConfig)
unfolding existing_config memif_config
typed_config os names cfg conn default_interface = ok (existing_config cfg ∷ [])
typed_config os names cfg conn kernel_interface = ok (existing_config cfg ∷ [])
typed_config os names cfg conn mem_interface = do
  base_dir ← nsm_base_dir os names
  let socket_filename = join_path base_dir conn.socket_filename
  ok (memif_config cfg socket_filename ∷ [])
typed_config os names cfg conn (unnamed n) = err (unsupported_interface_type (unnamed n))

unfoldable pub build_interface_config :
    Os → SdkNames → NetworkServiceClient → Connection → Result (List InterfaceConfig)
build_interface_config os names cfg conn = typed_config os names cfg conn cfg.interface_type

unfoldable pub client_configuration :
    SdkNames → NsConfiguration → NetworkServiceClient → NsConfiguration
client_configuration names from_env cfg = record from_env {
  mechanism_type = nsm_mechanism_from_interface_type names cfg.interface_type;
  outgoing_nsc_name = cfg.network_service;
  outgoing_nsc_labels = nsm_labels_from_proto cfg.outgoing_labels;
  ip_address = generate_dummy_subnet (codes "client-" ++ cfg.name);
}

module _ (os : Os) (names : SdkNames) (sdk : ClientSdk) where
  -- The end of `Create`, with the result of `buildInterfaceConfig`.
  start_interface :
      Bytes
      → Connection
      → Result (List InterfaceConfig)
      → NsmClientDescriptor
      → Result NsmClientMetadata × NsmClientDescriptor
  start_interface client conn (err e) d = (
    err e,
    record d {
      sdk =
          destroy client (sdk.on_destroy client)
          ∷ close client conn (sdk.on_close client conn)
          ∷ d.sdk;
    },
  )
  start_interface client conn (ok config) d = (
    ok (record { nsm_client = client; nsm_conn = conn }),
    record d { spawned = update config ∷ d.spawned },
  )

  with_connection :
      NetworkServiceClient
      → Bytes
      → Result Connection
      → NsmClientDescriptor
      → Result NsmClientMetadata × NsmClientDescriptor
  unfolding start_interface
  with_connection cfg client (err e) d =
      (err e, record d { sdk = destroy client (sdk.on_destroy client) ∷ d.sdk })
  with_connection cfg client (ok conn) d =
      start_interface client conn (build_interface_config os names cfg conn)
        (record d { sdk = connect client conn ∷ d.sdk })

  with_client :
      NsConfiguration
      → NetworkServiceClient
      → Result Bytes
      → NsmClientDescriptor
      → Result NsmClientMetadata × NsmClientDescriptor
  unfolding with_connection
  with_client configuration cfg (err e) d = (err e, d)
  with_client configuration cfg (ok client) d =
      with_connection cfg client
        (sdk.on_connect client cfg.interface_name configuration.mechanism_type cfg.name)
        (record d { sdk = new_client client ∷ d.sdk })

  unfoldable pub create :
      NsConfiguration
      → NetworkServiceClient
      → NsmClientDescriptor
      → Result NsmClientMetadata × NsmClientDescriptor
  unfolding with_client
  create from_env cfg d =
      let configuration = client_configuration names from_env cfg in
      with_client configuration cfg (sdk.on_new configuration) d

  -- The end of `Delete`: a connection that cannot be closed leaves its client as it is.
  end_connection : NsmClientMetadata → NsmClientDescriptor → Option Error × NsmClientDescriptor
  end_connection m d =
      let failed = sdk.on_close m.nsm_client m.nsm_conn in
      let d' = record d { sdk = close m.nsm_client m.nsm_conn failed ∷ d.sdk } in
      elim failed [
        | some e ↦ (some e, d')
        | none ↦
            let result = sdk.on_destroy m.nsm_client in
            (result, record d' { sdk = destroy m.nsm_client result ∷ d'.sdk })
      ]

  unfoldable pub delete_client :
      NetworkServiceClient
      → NsmClientMetadata
      → NsmClientDescriptor
      → Option Error × NsmClientDescriptor
  unfolding end_connection
  delete_client cfg m d = elim (build_interface_config os names cfg m.nsm_conn) [
    | err e ↦ (some e, d)
    | ok config ↦ end_connection m (record d { spawned = delete config ∷ d.spawned })
  ]
