-- ===== src/Endpoint/Readmission.antt =====
-- The request of a client that may have had a connection before.
use mathlib.Core.Path.{subst}
use cnf_nsm.Common.{
  ℕ, ◌≤◌, ◌≡◌, ◌≢◌, refl, sym, ap, ◌∙◌, true, false, [], ◌∷◌, Option, none, some, Bytes, arith,
  length, str_eq_refl, ◌&&◌, ltb, ◌⊎◌, inl, inr,
}
use cnf_nsm.Common.GoMap.{GoMap, lookup, erase, lookup-erase}
use cnf_nsm.Errors.{Error, ok, err}
use cnf_nsm.External.{Os, SdkNames, Connection, InterfaceConfig, delete}
use cnf_nsm.Proto.{NetworkServiceEndpoint}
use cnf_nsm.Endpoint.{
  NsmConnection, NsmEndpoint, Next, build_interface_config, close_connection, admit, open_with,
  forget, drop_duplicate, request,
}
use cnf_nsm.Endpoint.Invariant.{IsValid, admit_cases}
use cnf_nsm.Endpoint.Allocation.{
  Allocation, release, Assigns, assigns, IsChosen, indexes, indexes-erase, assign-release,
  release-release,
}
use cnf_nsm.Endpoint.Allocating.{admit_open, built_alike, length-erase-lt}

-- A client that is there is assigned an index as if it were not.
Assigns-release :
    {cfg : NetworkServiceEndpoint} {k : Bytes} {s t : Allocation}
    → Assigns cfg k (release k s) t
    → Assigns cfg k s t
Assigns-release {cfg} {k} {s} (assigns i chosen alone) = rw (assign-release k i s) (
    assigns i (subst (λ (u : Allocation). IsChosen cfg u i) (release-release k s) chosen)
      λ single id. ap (λ (u : Allocation). u id) (sym (release-release k s)) ∙ alone single id)

Assigns-erase :
    {cfg : NetworkServiceEndpoint} {k : Bytes} (m : GoMap NsmConnection) {t : Allocation}
    → Assigns cfg k (indexes (erase k m)) t
    → Assigns cfg k (indexes m) t
Assigns-erase {cfg} {k} m {t} a =
    Assigns-release (subst (λ (u : Allocation). Assigns cfg k u t) (indexes-erase k m) a)

-- A request that an endpoint refuses or cannot serve leaves every client's index as it was, and the answer
-- is an error.
abbrev pub Unchanged : (r : (Connection × Option Error) × NsmEndpoint) (e : NsmEndpoint) → Type 0
Unchanged r e = (r.0.1 ≢ none) × (indexes r.1.connections ≡ indexes e.connections)

abbrev pub Outcome : (Connection × Option Error) × NsmEndpoint → NsmEndpoint → Connection → Type 0
Outcome r e conn =
    Unchanged r e ⊎ Assigns e.cfg conn.id (indexes e.connections) (indexes r.1.connections)

module _ (os : Os) (names : SdkNames) where
  pub admit-Outcome :
      (next : Option Next) (e : NsmEndpoint) (conn : Connection)
      → IsValid e
      → lookup conn.id e.connections ≡ none
      → Outcome (admit os names next e conn) e conn
  admit-Outcome next e conn v absent =
      admit_cases os names (λ r. Outcome r e conn) next e conn (λ x. inl ((λ h. cc), refl))
        λ c i built room r. inr (admit_open os names next e conn c i v absent room built)

  -- The second half of a request whose client had a connection does not fail.
  pub readmitted :
      (next : Option Next) (e : NsmEndpoint) (conn : Connection) (d : NsmConnection)
      (c : InterfaceConfig) (i : ℕ)
      → IsValid e
      → lookup conn.id e.connections ≡ some d
      → build_interface_config os names e e.cfg conn ≡ ok (c, i)
      → let e' = record e {
        localclient = delete (c ∷ []) ∷ e.localclient;
        connections = erase conn.id e.connections;
      } in
        IsValid e'
        → Assigns e.cfg conn.id
            (indexes e.connections)
            (indexes (admit os names next e' conn).1.connections)
  unfolding admit
  readmitted next e conn d c i v present built v' =
      let e' : NsmEndpoint = record e {
        localclient = delete (c ∷ []) ∷ e.localclient;
        connections = erase conn.id e.connections;
      } in
      let room : e.cfg.single_client ≡ true → length (erase conn.id e.connections) ≤ 0 =
        λ single. omega (arith, v.single single, length-erase-lt conn.id e.connections d present) in
      let ((c', i'), built') = built_alike os names e e' e.cfg conn c i built in
      let absent : lookup conn.id (erase conn.id e.connections) ≡ none =
        ground (arith, lookup-erase conn.id conn.id e.connections, str_eq_refl conn.id) in
      let opened = admit_open os names next e' conn c' i' v' absent room built' in
      let guard : (e.cfg.single_client && ltb 0 (length (erase conn.id e.connections))) ≡ false =
        ground (arith, room) in
      rw (guard, built', open_with) (Assigns-erase e.connections opened)

  pub closed :
      (e : NsmEndpoint) (conn : Connection) (c : InterfaceConfig) (i : ℕ)
      → build_interface_config os names e e.cfg conn ≡ ok (c, i)
      → close_connection os names e conn ≡ (
        none,
        record e {
          localclient = delete (c ∷ []) ∷ e.localclient;
          connections = erase conn.id e.connections;
        },
      )
  unfolding close_connection
  closed e conn c i built = rw (built, forget) refl

  pub not_closed :
      (e : NsmEndpoint) (conn : Connection) (x : Error)
      → build_interface_config os names e e.cfg conn ≡ err x
      → close_connection os names e conn ≡ (some x, e)
  unfolding close_connection
  not_closed e conn x failed = rw (failed, forget) refl

  module _ (next : Option Next) (e : NsmEndpoint) (conn : Connection) where
    pub request_first :
        lookup conn.id e.connections ≡ none
        → request os names next e conn ≡ admit os names next e conn
    unfolding request drop_duplicate
    request_first absent = ground arith

    pub request_failed :
        (d : NsmConnection) (x : Error)
        → lookup conn.id e.connections ≡ some d
        → build_interface_config os names e e.cfg conn ≡ err x
        → request os names next e conn ≡ ((conn, some x), e)
    unfolding request drop_duplicate close_connection
    request_failed d x present failed = ground arith

    pub request_again :
        (d : NsmConnection) (c : InterfaceConfig) (i : ℕ)
        → lookup conn.id e.connections ≡ some d
        → build_interface_config os names e e.cfg conn ≡ ok (c, i)
        → request os names next e conn
          ≡ admit os names next
              (record e {
                localclient = delete (c ∷ []) ∷ e.localclient;
                connections = erase conn.id e.connections;
              })
              conn
    unfolding request drop_duplicate
    request_again d c i present built =
        let dropped : drop_duplicate os names e conn ≡ close_connection os names e conn =
          rw (present, drop_duplicate) refl in
        rw (dropped, closed e conn c i built, request) (rw (dropped, closed e conn c i built) refl)
