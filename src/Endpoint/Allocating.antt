-- ===== src/Endpoint/Allocating.antt =====
-- What a client that an endpoint lets in is given.
use cnf_nsm.Common.{
  ℕ, ◌<◌, ◌≤◌, ◌≡◌, refl, ap, ◌∙◌, true, [], ◌∷◌, Option, none, some, Bytes, arith, length, inl,
  inr, Bool-cases, str_eq, str_eq_iff,
}
use cnf_nsm.Common.GoMap.{GoMap, lookup, erase, insert, length-erase-le}
use cnf_nsm.Errors.{Result-cases, ok}
use cnf_nsm.External.{Os, SdkNames, Connection, InterfaceConfig}
use cnf_nsm.Proto.{
  ConnectionInterfaceType, default_interface, kernel_interface, mem_interface, unnamed,
  NetworkServiceEndpoint,
}
use cnf_nsm.Endpoint.{
  NsmConnection, NsmEndpoint, Next, typed_config, build_interface_config, interface_name,
  get_connection_index, known_index, allocate_connection_index,
}
use cnf_nsm.Endpoint.Config.{built_by_index, built_by_label_index}
use cnf_nsm.Endpoint.Index.{allocate_connection_index_lem}
use cnf_nsm.Endpoint.Invariant.{IsValid}
use cnf_nsm.Endpoint.Allocation.{
  Allocation, IsChosen, by_index, by_label, Assigns, assigns, indexes, indexes-insert,
  release_absent, IsFirstFree-indexes,
}

-- Whether a configuration can be made does not depend on the name of the interface.
typed_config_renamed :
    (os : Os) (names : SdkNames) (cfg : NetworkServiceEndpoint) (conn : Connection)
    (type : ConnectionInterfaceType) (n m : Bytes) (c : InterfaceConfig)
    → typed_config os names cfg conn type n ≡ ok c
    → (d : InterfaceConfig) × (typed_config os names cfg conn type m ≡ ok d)
unfolding typed_config
typed_config_renamed os names cfg conn default_interface n m c h = (_, refl)
typed_config_renamed os names cfg conn kernel_interface n m c h = (_, refl)
typed_config_renamed os names cfg conn mem_interface n m c h =
    elim (Result-cases (typed_config os names cfg conn mem_interface m)) [
      | inl (x, failed) ↦ absurd (ground arith)
      | inr found ↦ found
    ]
typed_config_renamed os names cfg conn (unnamed k) n m c h = cc

indexes_none : (m : GoMap NsmConnection) → length m ≤ 0 → (id : Bytes) → indexes m id ≡ none
unfolding indexes lookup
indexes_none [] h id = refl
indexes_none (c ∷ m) h id = absurd (omega arith)

pub length-erase-lt :
    (k : Bytes) (m : GoMap NsmConnection) (c : NsmConnection)
    → lookup k m ≡ some c
    → length (erase k m) < length m
unfolding lookup erase
length-erase-lt k [] c h = cc
length-erase-lt k ((j, d) ∷ m) c h = ground (arith, length-erase-lt k m c, length-erase-le k m)

module _ (os : Os) (names : SdkNames) where
  -- Whether a configuration can be built does not depend on the open connections.
  pub built_alike :
      (e e' : NsmEndpoint) (cfg : NetworkServiceEndpoint) (conn : Connection) (c : InterfaceConfig)
      (i : ℕ)
      → build_interface_config os names e cfg conn ≡ ok (c, i)
      → (r : InterfaceConfig × ℕ) × (build_interface_config os names e' cfg conn ≡ ok r)
  unfolding build_interface_config interface_name
  built_alike e e' cfg conn c i built = elim (Result-cases (interface_name e cfg conn)) [
    | inl (x, h) ↦ absurd (ground arith)
    | inr ((n, j), named) ↦ elim (Result-cases (interface_name e' cfg conn)) [
      | inl (x, h) ↦ absurd (ground arith)
      | inr ((m, k), named') ↦
          elim (Result-cases (typed_config os names cfg conn cfg.interface_type n)) [
            | inl (x, h) ↦ absurd (ground arith)
            | inr (d, made) ↦
                let (d', made') =
                  typed_config_renamed os names cfg conn cfg.interface_type n m d made in
                ((d', k), ground arith)
          ]
    ]
  ]

  -- The index of a new connection is the one that the endpoint promises.
  built-IsChosen :
      (e : NsmEndpoint) (conn : Connection) (c : InterfaceConfig) (i : ℕ)
      → IsValid e
      → lookup conn.id e.connections ≡ none
      → build_interface_config os names e e.cfg conn ≡ ok (c, i)
      → IsChosen e.cfg (indexes e.connections) i
  unfolding build_interface_config interface_name get_connection_index known_index
  built-IsChosen e conn c i v absent built =
      let label = e.cfg.interface_name_suffix_from_label in
      elim (Bool-cases (str_eq label [])) [
        | inl none_set ↦
            let no_label = (str_eq_iff label []).0 none_set in
            let least : i ≡ allocate_connection_index e =
              ground (arith, (built_by_index os names e conn built no_label).1) in
            by_index i no_label (
              IsFirstFree-indexes e.connections i v.ids
                (rw least (allocate_connection_index_lem e).0))
        | inr set ↦
            let zeroth : i ≡ 0 = built_by_label_index os names e conn built set in
            rw zeroth (by_label (λ no_label. ground (arith, str_eq_iff label [])))
      ]

  -- A client that is let in, and was not there, is assigned an index.
  pub admit_open :
      (next : Option Next) (e : NsmEndpoint) (conn : Connection) (c : InterfaceConfig) (i : ℕ)
      → IsValid e
      → lookup conn.id e.connections ≡ none
      → (e.cfg.single_client ≡ true → length e.connections ≤ 0)
      → build_interface_config os names e e.cfg conn ≡ ok (c, i)
      → Assigns e.cfg conn.id
          (indexes e.connections)
          (indexes (insert conn.id (record { index = i; conn = conn }) e.connections))
  admit_open next e conn c i v absent room built =
      let gone =
        release_absent conn.id (indexes e.connections) (unfold indexes in rw absent refl) in
      rw (indexes-insert conn.id (record { index = i; conn = conn }) e.connections) (
        assigns i (rw gone (built-IsChosen e conn c i v absent built)) (λ single id.
          ap (λ (s : Allocation). s id) gone ∙ indexes_none e.connections (room single) id))
