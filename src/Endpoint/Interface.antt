-- ===== src/Endpoint/Interface.antt =====
-- What the configuration of an endpoint's interface holds.
use cnf_nsm.Common.{ℕ, ◌≡◌, List, [], none, Bytes, arith, inl, inr, Option-cases, if◌then◌else◌}
use mathlib.Core.Path.{subst}
use cnf_nsm.GoLib.FilePath.{join_path, dir}
use cnf_nsm.Proto.{
  ConnectionInterfaceType, NetworkServiceEndpoint, default_interface, kernel_interface,
  mem_interface, unnamed,
}
use cnf_nsm.Errors.{ok, Result-cases}
use cnf_nsm.External.{Os, SdkNames, Connection, InterfaceConfig, existing, memif}
use cnf_nsm.Naming.{nsm_base_dir}
use cnf_nsm.Endpoint.{
  NsmEndpoint, interface_name, typed_config, memif_config, build_interface_config,
}

abbrev pub config_addresses : InterfaceConfig → List Bytes × Bytes
config_addresses (existing i) = (i.ip_addresses, i.phys_address)
config_addresses (memif i) = (i.ip_addresses, i.phys_address)

typed_config-addresses :
    (os : Os) (names : SdkNames) (cfg : NetworkServiceEndpoint) (conn : Connection)
    (type : ConnectionInterfaceType) (name : Bytes) {c : InterfaceConfig}
    → typed_config os names cfg conn type name ≡ ok c
    → config_addresses c
      ≡ (if cfg.single_client then (cfg.ip_addresses, cfg.phys_address) else ([], []))
unfolding typed_config
typed_config-addresses os names cfg conn default_interface name h = ground arith
typed_config-addresses os names cfg conn kernel_interface name h = ground arith
typed_config-addresses os names cfg conn mem_interface name h = ground arith
typed_config-addresses os names cfg conn (unnamed n) name h = cc

module _ (os : Os) (names : SdkNames) (e : NsmEndpoint) (conn : Connection) where
  -- The interface of a connection gets the configured IP and MAC addresses if the endpoint is for a
  -- single client, and none otherwise, whatever the type of the interface.
  pub built_addresses :
      (c : InterfaceConfig) (i : ℕ)
      → build_interface_config os names e e.cfg conn ≡ ok (c, i)
      → config_addresses c
        ≡ (if e.cfg.single_client then (e.cfg.ip_addresses, e.cfg.phys_address) else ([], []))
  unfolding build_interface_config
  built_addresses c i built = elim (Result-cases (interface_name e e.cfg conn)) [
    | inl (x, h) ↦ absurd (ground arith)
    | inr ((name, index), h) ↦
        ground (arith, typed_config-addresses os names e.cfg conn e.cfg.interface_type name {c = c})
  ]

  typed_of_built :
      (c : InterfaceConfig) (i : ℕ)
      → build_interface_config os names e e.cfg conn ≡ ok (c, i)
      → (name : Bytes) × (typed_config os names e.cfg conn e.cfg.interface_type name ≡ ok c)
  unfolding build_interface_config
  typed_of_built c i built = elim (Result-cases (interface_name e e.cfg conn)) [
    | inl (x, h) ↦ absurd (ground arith)
    | inr ((name, index), h) ↦ (name, ground arith)
  ]

  at_type :
      (type : ConnectionInterfaceType) (name : Bytes) (c : InterfaceConfig)
      → e.cfg.interface_type ≡ type
      → typed_config os names e.cfg conn e.cfg.interface_type name ≡ ok c
      → typed_config os names e.cfg conn type name ≡ ok c
  at_type type name c same =
      subst (λ (t : ConnectionInterfaceType). typed_config os names e.cfg conn t name ≡ ok c) same

  memif_typed :
      (name : Bytes) (c : InterfaceConfig)
      → typed_config os names e.cfg conn mem_interface name ≡ ok c
      → (base_dir : Bytes) × (nsm_base_dir os names ≡ ok base_dir)
        × (os.mkdir_all (dir (join_path base_dir conn.socket_filename)) ≡ none)
        × (c ≡ memif_config e.cfg (join_path base_dir conn.socket_filename) name)
  unfolding typed_config
  memif_typed name c typed = elim (Result-cases (nsm_base_dir os names)) [
    | inl (x, h) ↦ absurd (ground arith)
    | inr (base_dir, h) ↦
        elim (Option-cases (os.mkdir_all (dir (join_path base_dir conn.socket_filename)))) [
          | inr (x, k) ↦ absurd (ground arith)
          | inl made ↦ (base_dir, h, made, ground arith)
        ]
  ]

  -- A memif of an endpoint is the master, on the socket of the connection under the base directory of
  -- NSM; the directory of that socket could be made.
  pub built_memif :
      (c : InterfaceConfig) (i : ℕ)
      → e.cfg.interface_type ≡ mem_interface
      → build_interface_config os names e e.cfg conn ≡ ok (c, i)
      → (base_dir name : Bytes) × (nsm_base_dir os names ≡ ok base_dir)
        × (os.mkdir_all (dir (join_path base_dir conn.socket_filename)) ≡ none)
        × (c ≡ memif_config e.cfg (join_path base_dir conn.socket_filename) name)
  built_memif c i mem built =
      let (name, typed) = typed_of_built c i built in
      let (base_dir, found, made, same) =
        memif_typed name c (at_type mem_interface name c mem typed) in
      (base_dir, name, found, made, same)

  -- An interface of a type that the enum does not name is never built.
  pub built_type :
      (c : InterfaceConfig) (i n : ℕ)
      → build_interface_config os names e e.cfg conn ≡ ok (c, i)
      → e.cfg.interface_type ≡ unnamed n
      → ⊥
  unfolding typed_config
  built_type c i n built other =
      let (name, typed) = typed_of_built c i built in
      let refused : typed_config os names e.cfg conn (unnamed n) name ≡ ok c =
        at_type (unnamed n) name c other typed in
      cc
