-- ===== src/ClientDescriptor/Order.antt =====
-- The order of the requests that `Create` and `Delete` have the agent's client send.
use cnf_nsm.Common.{◌≡◌, true, false, List, [], ◌∷◌, none, arith, str_eq_refl}
use cnf_nsm.Proto.{NetworkServiceClient}
use cnf_nsm.Errors.{ok}
use cnf_nsm.External.Kinds.{interface_kind, same_kind_refl}
use cnf_nsm.ClientDescriptor.Sending.{typed_config-names}
use cnf_nsm.External.{Os, SdkNames, NsConfiguration, InterfaceConfig, update, delete, configured}
use cnf_nsm.ClientDescriptor.{
  ClientSdk, NsmClientMetadata, NsmClientDescriptor, build_interface_config, create, delete_client,
}
use cnf_nsm.ClientDescriptor.Lifecycle.{create_succeeded, delete_client_succeeded}

module _ (os : Os) (names : SdkNames) (sdk sdk' : ClientSdk) where
  -- A `Create` and the `Delete` of what it created, both without an error, start one goroutine each,
  -- to update and to delete one configuration. In the order of the calls no interface of the configured
  -- name and of the kind of the client is left. In the other order, which nothing prevents, it is left.
  pub create_then_delete :
      (from_env : NsConfiguration) (cfg : NetworkServiceClient) (d : NsmClientDescriptor)
      (m : NsmClientMetadata)
      → (create os names sdk from_env cfg d).0 ≡ ok m
      → (delete_client os names sdk' cfg m (create os names sdk from_env cfg d).1).0 ≡ none
      → (config : List InterfaceConfig) × ((delete_client os names sdk' cfg m
            (create os names sdk from_env cfg d).1).1.spawned
          ≡ delete config ∷ update config ∷ d.spawned)
        × (configured
              (interface_kind cfg.interface_type)
              (delete config ∷ update config ∷ [])
              cfg.interface_name
            ≡ false)
        × (configured
              (interface_kind cfg.interface_type)
              (update config ∷ delete config ∷ [])
              cfg.interface_name
            ≡ true)
  unfolding build_interface_config configured
  create_then_delete from_env cfg d m made done =
      let (config, built, spawned, _, _) = create_succeeded os names sdk from_env cfg d m made in
      let (config', built', spawned', _, _) =
        delete_client_succeeded os names sdk' cfg m (create os names sdk from_env cfg d).1 done in
      let kind = interface_kind cfg.interface_type in
      let named =
        typed_config-names os names cfg m.nsm_conn cfg.interface_type config kind cfg.interface_name
          built in
      let of_kind = same_kind_refl kind in
      let its_name = str_eq_refl cfg.interface_name in
      (config, ground arith, ground arith, ground arith)
