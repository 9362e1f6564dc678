-- ===== src/Endpoint/Config.antt =====
-- What `buildInterfaceConfig` returns.
use cnf_nsm.Common.{
  Option-cases, ℕ, ◌≡◌, false, [], ◌++◌, some, Bytes, arith, inl, inr, str_eq, str_eq_iff,
}
use cnf_nsm.Common.GoMap.{lookup}
use cnf_nsm.GoLib.Decimal.{itoa}
use cnf_nsm.Proto.{
  ConnectionInterfaceType, default_interface, kernel_interface, mem_interface, unnamed,
  NetworkServiceEndpoint,
}
use cnf_nsm.Errors.{ok, Result-cases}
use cnf_nsm.External.{Os, SdkNames, Connection, InterfaceConfig, config_name, config_kind}
use cnf_nsm.External.Kinds.{interface_kind}
use cnf_nsm.Endpoint.{
  NsmEndpoint, get_connection_index, interface_name, typed_config, build_interface_config,
}

typed_config-name :
    (os : Os) (names : SdkNames) (cfg : NetworkServiceEndpoint) (conn : Connection)
    (type : ConnectionInterfaceType) (name : Bytes) {c : InterfaceConfig}
    → typed_config os names cfg conn type name ≡ ok c
    → config_name c ≡ name
unfolding typed_config
typed_config-name os names cfg conn default_interface name h = ground arith
typed_config-name os names cfg conn kernel_interface name h = ground arith
typed_config-name os names cfg conn mem_interface name h = ground arith
typed_config-name os names cfg conn (unnamed n) name h = cc

typed_config-kind :
    (os : Os) (names : SdkNames) (cfg : NetworkServiceEndpoint) (conn : Connection)
    (type : ConnectionInterfaceType) (name : Bytes) {c : InterfaceConfig}
    → typed_config os names cfg conn type name ≡ ok c
    → config_kind c ≡ interface_kind type
unfolding typed_config
typed_config-kind os names cfg conn default_interface name h = ground arith
typed_config-kind os names cfg conn kernel_interface name h = ground arith
typed_config-kind os names cfg conn mem_interface name h = ground arith
typed_config-kind os names cfg conn (unnamed n) name h = cc

module _ (os : Os) (names : SdkNames) (e : NsmEndpoint) (conn : Connection) {c : InterfaceConfig}
    {i : ℕ} (built : build_interface_config os names e e.cfg conn ≡ ok (c, i)) where
  built_name : interface_name e e.cfg conn ≡ ok (config_name c, i)
  unfolding build_interface_config
  built_name = elim (Result-cases (interface_name e e.cfg conn)) [
    | inl (x, h) ↦ ground arith
    | inr ((name, index), h) ↦
        ground (arith, typed_config-name os names e.cfg conn e.cfg.interface_type name {c = c})
  ]

  -- The interface is of the kind that the type of the endpoint stands for.
  pub built_kind : config_kind c ≡ interface_kind e.cfg.interface_type
  unfolding build_interface_config
  built_kind = elim (Result-cases (interface_name e e.cfg conn)) [
    | inl (x, h) ↦ absurd (ground arith)
    | inr ((name, index), h) ↦
        ground (arith, typed_config-kind os names e.cfg conn e.cfg.interface_type name {c = c})
  ]

  -- With no label for suffixes the name is the prefix and the index of the connection.
  pub built_by_index :
      e.cfg.interface_name_suffix_from_label ≡ []
      → (config_name c ≡ e.cfg.interface_name_prefix ++ itoa i) × (i ≡ get_connection_index e conn)
  unfolding interface_name
  built_by_index h =
      ground (arith, built_name, str_eq_iff e.cfg.interface_name_suffix_from_label [])

  -- Otherwise it is the prefix and the value of that label.
  pub built_by_label :
      (label suffix : Bytes)
      → e.cfg.interface_name_suffix_from_label ≡ label
      → str_eq label [] ≡ false
      → lookup label conn.labels ≡ some suffix
      → config_name c ≡ e.cfg.interface_name_prefix ++ suffix
  unfolding interface_name
  built_by_label label suffix h nonempty found = ground (arith, built_name)

  -- A name that ends in a label takes no index.
  pub built_by_label_index : str_eq e.cfg.interface_name_suffix_from_label [] ≡ false → i ≡ 0
  unfolding interface_name
  built_by_label_index set =
      elim (Option-cases (lookup e.cfg.interface_name_suffix_from_label conn.labels)) [
        | inl absent ↦ ground (arith, built_name)
        | inr (suffix, found) ↦ ground (arith, built_name)
      ]
