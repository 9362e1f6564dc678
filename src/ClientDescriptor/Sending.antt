-- ===== src/ClientDescriptor/Sending.antt =====
-- The goroutines that `Create` and `Delete` start, which send their requests in an order of their own.
use cnf_nsm.Common.{
  ◌≡◌, refl, ◌∙◌, Bool, true, false, ◌&&◌, List, [], ◌∷◌, Bytes, arith, str_eq, if◌then◌else◌,
}
use cnf_nsm.Proto.{
  NetworkServiceClient, ConnectionInterfaceType, default_interface, kernel_interface, mem_interface,
  unnamed,
}
use cnf_nsm.Errors.{Error, ok, err}
use cnf_nsm.External.Kinds.{interface_kind}
use cnf_nsm.External.{
  same_kind, InterfaceKind, Os, SdkNames, Connection, NsConfiguration, InterfaceConfig,
  ChangeRequest, delete, configured, names_one,
}
use cnf_nsm.External.Shared.{about, configured-same}
use cnf_nsm.ClientDescriptor.{
  ClientSdk, NsmClientMetadata, NsmClientDescriptor, new_nsm_client_descriptor, typed_config,
  build_interface_config, create, delete_client,
}
use cnf_nsm.ClientDescriptor.Lifecycle.{create_succeeded}

-- What a call of the descriptor asks for: that an interface of a kind and a name is there, or that it is
-- not.
pub data Wish : Type 0 where
  wants drops : InterfaceKind → Bytes → Wish

-- Whether an interface of a kind and a name is asked for after the calls, the latest of which is the first.
unfoldable pub wanted : InterfaceKind → List Wish → Bytes → Bool
wanted k [] n = false
wanted k (wants kind name ∷ h) n = if same_kind kind k && str_eq name n then true else wanted k h n
wanted k (drops kind name ∷ h) n = if same_kind kind k && str_eq name n then false else wanted k h n

-- The descriptor after any calls, with what they asked for. A `Create` asks if it succeeds, and a
-- `Delete` if the configuration of the interface can be built, also where it fails to end the connection.
pub data ClientReach (names : SdkNames) : List Wish → NsmClientDescriptor → Type 0 where
  unused : ClientReach names [] new_nsm_client_descriptor
  creates :
      (os : Os) (sdk : ClientSdk) (from_env : NsConfiguration) (cfg : NetworkServiceClient)
      {h : List Wish} {d : NsmClientDescriptor} {m : NsmClientMetadata}
      → ClientReach names h d
      → (create os names sdk from_env cfg d).0 ≡ ok m
      → ClientReach names
          (wants (interface_kind cfg.interface_type) cfg.interface_name ∷ h)
          (create os names sdk from_env cfg d).1
  create_fails :
      (os : Os) (sdk : ClientSdk) (from_env : NsConfiguration) (cfg : NetworkServiceClient)
      {h : List Wish} {d : NsmClientDescriptor} {e : Error}
      → ClientReach names h d
      → (create os names sdk from_env cfg d).0 ≡ err e
      → ClientReach names h (create os names sdk from_env cfg d).1
  deletes :
      (os : Os) (sdk : ClientSdk) (cfg : NetworkServiceClient) (m : NsmClientMetadata)
      {h : List Wish} {d : NsmClientDescriptor} {config : List InterfaceConfig}
      → ClientReach names h d
      → build_interface_config os names cfg m.nsm_conn ≡ ok config
      → ClientReach names
          (drops (interface_kind cfg.interface_type) cfg.interface_name ∷ h)
          (delete_client os names sdk cfg m d).1
  delete_fails :
      (os : Os) (sdk : ClientSdk) (cfg : NetworkServiceClient) (m : NsmClientMetadata)
      {h : List Wish} {d : NsmClientDescriptor} {e : Error}
      → ClientReach names h d
      → build_interface_config os names cfg m.nsm_conn ≡ err e
      → ClientReach names h (delete_client os names sdk cfg m d).1

-- A configuration of a client names the configured interface of its kind, and no other.
pub typed_config-names :
    (os : Os) (names : SdkNames) (cfg : NetworkServiceClient) (conn : Connection)
    (type : ConnectionInterfaceType) (configs : List InterfaceConfig) (k : InterfaceKind)
    (n : Bytes)
    → typed_config os names cfg conn type ≡ ok configs
    → names_one k configs n ≡ (same_kind (interface_kind type) k && str_eq cfg.interface_name n)
unfolding typed_config names_one
typed_config-names os names cfg conn default_interface configs k n h = ground arith
typed_config-names os names cfg conn kernel_interface configs k n h = ground arith
typed_config-names os names cfg conn mem_interface configs k n h = ground arith
typed_config-names os names cfg conn (unnamed type_number) configs k n h = cc

module _ (os : Os) (names : SdkNames) (sdk : ClientSdk) where
  spawned-create_failed :
      (from_env : NsConfiguration) (cfg : NetworkServiceClient) (d : NsmClientDescriptor)
      (e : Error)
      → (create os names sdk from_env cfg d).0 ≡ err e
      → (create os names sdk from_env cfg d).1.spawned ≡ d.spawned
  unfolding create
  spawned-create_failed from_env cfg d e failed = ground arith

  spawned-delete_client :
      (cfg : NetworkServiceClient) (m : NsmClientMetadata) (d : NsmClientDescriptor)
      (config : List InterfaceConfig)
      → build_interface_config os names cfg m.nsm_conn ≡ ok config
      → (delete_client os names sdk cfg m d).1.spawned ≡ delete config ∷ d.spawned
  unfolding delete_client
  spawned-delete_client cfg m d config built = ground arith

  spawned-delete_failed :
      (cfg : NetworkServiceClient) (m : NsmClientMetadata) (d : NsmClientDescriptor) (e : Error)
      → build_interface_config os names cfg m.nsm_conn ≡ err e
      → (delete_client os names sdk cfg m d).1.spawned ≡ d.spawned
  unfolding delete_client
  spawned-delete_failed cfg m d e failed = ground arith

-- In the order of the calls, what the goroutines send leaves what the calls asked for.
in_order :
    {names : SdkNames} {h : List Wish} {d : NsmClientDescriptor}
    → ClientReach names h d
    → (k : InterfaceKind) (n : Bytes) → configured k d.spawned n ≡ wanted k h n
unfolding build_interface_config configured wanted new_nsm_client_descriptor
in_order unused k n = refl
in_order {names} (creates os sdk from_env cfg {d} {m} r made) k n =
    let (config, built, spawned, _, _) = create_succeeded os names sdk from_env cfg d m made in
    let named = typed_config-names os names cfg m.nsm_conn cfg.interface_type config k n built in
    ground (arith, in_order r k n)
in_order {names} (create_fails os sdk from_env cfg {d} {e} r failed) k n =
    rw (spawned-create_failed os names sdk from_env cfg d e failed) (in_order r k n)
in_order {names} (deletes os sdk cfg m {d} {config} r built) k n =
    let named = typed_config-names os names cfg m.nsm_conn cfg.interface_type config k n built in
    ground (arith, spawned-delete_client os names sdk cfg m d config built, in_order r k n)
in_order {names} (delete_fails os sdk cfg m {d} {e} r failed) k n =
    rw (spawned-delete_failed os names sdk cfg m d e failed) (in_order r k n)

-- After any calls of the descriptor of clients, once the requests about an interface have been sent in
-- the order in which they were asked for, it is configured exactly if the last call that asked for
-- anything about its kind and name was a `Create`: wherever the goroutines of other clients, whose
-- interfaces are of another kind or have other names, come in between. A kernel interface is of Linux
-- and a memif of VPP.
pub configured-wanted :
    (names : SdkNames) (h : List Wish) (d : NsmClientDescriptor) (sent : List ChangeRequest)
    (k : InterfaceKind) (n : Bytes)
    → ClientReach names h d
    → about k n sent ≡ about k n d.spawned
    → configured k sent n ≡ wanted k h n
configured-wanted names h d sent k n r same =
    configured-same k n sent d.spawned same ∙ in_order r k n
