-- ===== src/Endpoint/CloseAll.antt =====
-- `CloseConnections`, whatever the order of the iteration.
use mathlib.Core.Bool.{Bool-set}
use mathlib.Core.Logic.{∥∥₁_elim}
use mathlib.Core.List.{Perm, Permᴰ}
use cnf_nsm.Common.{
  ◌≡◌, ◌≢◌, refl, ◌∙◌, Bool, true, false, ◌||◌, List, [], ◌∷◌, none, Bytes, arith, map,
  Option-cases, inl, inr, str_eq, str_eq_refl, if◌then◌else◌,
}
use cnf_nsm.Common.GoMap.{GoMap, lookup, lookup-erase}
use cnf_nsm.External.{Os, SdkNames, Connection, InterfaceKind, configured}
use cnf_nsm.Proto.{NetworkServiceEndpoint}
use cnf_nsm.Endpoint.{
  typed_config, interface_name, build_interface_config, kernel_interface, forget, NsmConnection,
  NsmEndpoint, close_connection, close_all, close_connections,
}
use cnf_nsm.Endpoint.Names.{IsKeyed, open_name}
use cnf_nsm.Endpoint.Invariant.{close_connection_cases, close_all-IsValid}
use cnf_nsm.Endpoint.Kept.{cfg-close_all, cfg-close_connection}
use cnf_nsm.Endpoint.Reach.{Reach, Reach-IsValid, Reach-cfg}

-- Whether one of the connections has the identifier.
visits : List NsmConnection → Bytes → Bool
visits [] id = false
visits (c ∷ cs) id = str_eq c.conn.id id || visits cs id

visits-Permᴰ : (id : Bytes) {xs ys : List NsmConnection} → Permᴰ xs ys → visits xs id ≡ visits ys id
unfolding visits
visits-Permᴰ id Permᴰ.nil = refl
visits-Permᴰ id (Permᴰ.cons e p) = ground (arith, visits-Permᴰ id p)
visits-Permᴰ id (Permᴰ.swap e f) = ground arith
visits-Permᴰ id (Permᴰ.trans p q) = visits-Permᴰ id p ∙ visits-Permᴰ id q

-- The values of a map.
abbrev pub values : GoMap NsmConnection → List NsmConnection
values = map (λ p. p.1)

visits-values :
    (m : GoMap NsmConnection) (id : Bytes)
    → IsKeyed m
    → lookup id m ≢ none
    → visits (values m) id ≡ true
unfolding visits lookup
visits-values [] id k h = absurd (h refl)
visits-values ((i, c) ∷ m) id k h = ground (arith, visits-values m id k.1)

all_absent : (m : GoMap NsmConnection) → ((id : Bytes) → lookup id m ≡ none) → m ≡ []
unfolding lookup
all_absent [] h = refl
all_absent ((i, c) ∷ m) h = ground (arith, h i, str_eq_refl i)

module _ (os : Os) (names : SdkNames) where
  closed_lookup :
      (e : NsmEndpoint) (conn : Connection) (id : Bytes)
      → (close_connection os names e conn).0 ≡ none
      → lookup id (close_connection os names e conn).1.connections
        ≡ (if str_eq conn.id id then none else lookup id e.connections)
  closed_lookup e conn id =
      close_connection_cases os names
        (λ r.
          r.0 ≡ none
          → lookup id r.1.connections
            ≡ (if str_eq conn.id id then none else lookup id e.connections))
        e conn (λ x h failed. cc) (λ c i h _. lookup-erase conn.id id e.connections)

  -- Where no closing fails, exactly the connections that were visited are gone.
  lookup-close_all :
      (e : NsmEndpoint) (order : List NsmConnection) (id : Bytes)
      → (close_all os names e order).0 ≡ none
      → lookup id (close_all os names e order).1.connections
        ≡ (if visits order id then none else lookup id e.connections)
  unfolding close_all visits
  lookup-close_all e [] id h = refl
  lookup-close_all e (c ∷ order) id h = ground (
    arith,
    closed_lookup e c.conn id,
    lookup-close_all (close_connection os names e c.conn).1 order id,
  )

  all_visited :
      (e : NsmEndpoint) (order : List NsmConnection)
      → IsKeyed e.connections
      → Perm order (values e.connections)
      → (close_all os names e order).0 ≡ none
      → (id : Bytes) → lookup id (close_all os names e order).1.connections ≡ none
  all_visited e order keyed perm done id = elim (Option-cases (lookup id e.connections)) [
    | inl absent ↦ ground (arith, lookup-close_all e order id done)
    | inr (c, found) ↦ ground (
      arith,
      lookup-close_all e order id done,
      visits-values e.connections id keyed,
      ∥∥₁_elim perm (Bool-set (visits order id) (visits (values e.connections) id))
          (visits-Permᴰ id),
    )
  ]

  -- In whatever order the iteration meets the connections of an endpoint, after any calls of it, if
  -- `CloseConnections` returns no error then no connection is left.
  pub close_connections_nil :
      (cfg : NetworkServiceEndpoint) (e : NsmEndpoint) (order : List NsmConnection)
      → Reach names cfg e
      → Perm order (values e.connections)
      → (close_connections os names e order).0 ≡ none
      → (close_connections os names e order).1.connections ≡ []
  unfolding close_connections
  close_connections_nil cfg e order r perm done =
      all_absent (close_all os names e order).1.connections
        (all_visited e order (Reach-IsValid r).keyed perm done)

  -- In whatever order the iteration meets the connections of an endpoint whose interface names end in
  -- indexes, after any calls of it, if `CloseConnections` returns no error then no interface of the
  -- endpoint stays configured.
  pub close_connections_configured :
      (cfg : NetworkServiceEndpoint) (e : NsmEndpoint) (order : List NsmConnection)
      → Reach names cfg e
      → Perm order (values e.connections)
      → (close_connections os names e order).0 ≡ none
      → cfg.interface_name_suffix_from_label ≡ []
      → (k : InterfaceKind) (n : Bytes)
      → configured k (close_connections os names e order).1.localclient n ≡ false
  unfolding close_connections open_name
  close_connections_configured cfg e order r perm done by_index k n =
      let valid = close_all-IsValid os names e order (Reach-IsValid r) in
      ground (
        arith,
        (valid.tracks (rw (cfg-close_all os names e order) (rw (Reach-cfg r) by_index))).live k n,
        close_connections_nil cfg e order r perm done,
      )

  close_kernel :
      (e : NsmEndpoint) (conn : Connection)
      → e.cfg.interface_name_suffix_from_label ≡ []
      → e.cfg.interface_type ≡ kernel_interface
      → (close_connection os names e conn).0 ≡ none
  unfolding close_connection forget build_interface_config interface_name typed_config str_eq
  close_kernel e conn by_index kernel = rw (by_index, kernel) refl

  close_all_kernel :
      (e : NsmEndpoint) (order : List NsmConnection)
      → e.cfg.interface_name_suffix_from_label ≡ []
      → e.cfg.interface_type ≡ kernel_interface
      → (close_all os names e order).0 ≡ none
  unfolding close_all
  close_all_kernel e [] by_index kernel = refl
  close_all_kernel e (c ∷ order) by_index kernel = ground (
    arith,
    close_kernel e c.conn by_index kernel,
    close_all_kernel (close_connection os names e c.conn).1 order
        (rw (cfg-close_connection os names e c.conn) by_index)
        (rw (cfg-close_connection os names e c.conn) kernel),
  )

  -- `CloseConnections` of an endpoint with kernel interfaces, whose names end in indexes, never returns
  -- an error: after any calls of the endpoint, and in whatever order the iteration meets the
  -- connections, none is left and no interface stays configured.
  pub close_connections_kernel :
      (cfg : NetworkServiceEndpoint) (e : NsmEndpoint) (order : List NsmConnection)
      → Reach names cfg e
      → Perm order (values e.connections)
      → cfg.interface_name_suffix_from_label ≡ []
      → cfg.interface_type ≡ kernel_interface
      → ((close_connections os names e order).0 ≡ none)
        × ((close_connections os names e order).1.connections ≡ [])
        × ((k : InterfaceKind) (n : Bytes)
            → configured k (close_connections os names e order).1.localclient n ≡ false)
  unfolding close_connections
  close_connections_kernel cfg e order r perm by_index kernel =
      let done = close_all_kernel e order (rw (Reach-cfg r) by_index) (rw (Reach-cfg r) kernel) in
      (
        done,
        close_connections_nil cfg e order r perm done,
        close_connections_configured cfg e order r perm done by_index,
      )
