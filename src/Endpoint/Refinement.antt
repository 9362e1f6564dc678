-- ===== src/Endpoint/Refinement.antt =====
-- The endpoint against what it promises of its clients' indexes.
use cnf_nsm.Endpoint.Readmission.{
  Outcome, closed, not_closed, admit-Outcome, readmitted, request_first, request_failed,
  request_again,
}
use mathlib.Core.Path.{subst}
use cnf_nsm.Common.{
  some, ap, ◌∙◌, ◌++◌, Bytes, ◌≡◌, ◌≢◌, refl, [], ◌∷◌, Option, none, ◌⊎◌, inl, inr, Option-cases,
  List,
}
use cnf_nsm.Common.GoMap.{lookup, erase}
use cnf_nsm.Errors.{Error, Result-cases}
use cnf_nsm.External.{Os, SdkNames, Connection, delete}
use cnf_nsm.Proto.{NetworkServiceEndpoint}
use cnf_nsm.Endpoint.{
  NsmConnection, NsmEndpoint, Next, new_nsm_endpoint, build_interface_config, close_all,
  close_connections, request, close,
}
use cnf_nsm.Endpoint.Invariant.{IsValid, close_connection-IsValid}
use cnf_nsm.Endpoint.Reach.{
  requests, closes, closes_all, Reach, created, after, Reach-IsValid, Reach-cfg,
}
use cnf_nsm.Endpoint.Allocation.{
  Allocation, release, release_all, Call, request_answered, close_answered, close_all_answered,
  Follows, refuses, grants, cannot_close, releases, releases_all, releases_some, Runs, idle,
  next_call, indexes, indexes-erase,
}

-- The identifiers of connections.
abbrev pub ids : List NsmConnection → List Bytes
ids [] = []
ids (c ∷ cs) = c.conn.id ∷ ids cs

module _ (os : Os) (names : SdkNames) where
  -- A request of a valid endpoint leaves every client's index as it was and answers with an error, or
  -- the client is given the index that the endpoint promises: the least that no other client has, or
  -- zero where names end in labels. That a client had a connection before, or that closing it fails,
  -- makes no third outcome.
  pub request_refines :
      (next : Option Next) (e : NsmEndpoint) (conn : Connection)
      → IsValid e
      → Outcome (request os names next e conn) e conn
  request_refines next e conn v = elim (Option-cases (lookup conn.id e.connections)) [
    | inl absent ↦
        rw (request_first os names next e conn absent) (admit-Outcome os names next e conn v absent)
    | inr (d, present) ↦ elim (Result-cases (build_interface_config os names e e.cfg conn)) [
      | inl (x, failed) ↦
          rw (request_failed os names next e conn d x present failed) (inl ((λ h. cc), refl))
      | inr ((c, i), built) ↦ rw (request_again os names next e conn d c i present built) (
          inr (
            readmitted os names next e conn d c i v present built (
              subst (λ (r : Option Error × NsmEndpoint). IsValid r.1)
                (closed os names e conn c i built) (close_connection-IsValid os names e conn v))))
    ]
  ]

  -- Closing a connection releases the client's index, unless it fails: then the answer is an error,
  -- and every client has the index that it had.
  pub close_refines :
      (next : Option Next) (e : NsmEndpoint) (conn : Connection)
      → ((close os names next e conn).0 ≢ none)
          × (indexes (close os names next e conn).1.connections ≡ indexes e.connections)
        ⊎ (indexes (close os names next e conn).1.connections
            ≡ release conn.id (indexes e.connections))
  unfolding close
  close_refines next e conn = elim (Result-cases (build_interface_config os names e e.cfg conn)) [
    | inl (x, failed) ↦
        rw (not_closed os names e conn x failed, close)
          (rw (not_closed os names e conn x failed) (inl ((λ h. cc), refl)))
    | inr ((c, i), built) ↦
        rw (closed os names e conn c i built, close)
          (rw (closed os names e conn c i built) (inr (indexes-erase conn.id e.connections)))
  ]

  pub request-Follows :
      (next : Option Next) (e : NsmEndpoint) (conn : Connection)
      → IsValid e
      → Follows e.cfg
          (indexes e.connections)
          (request_answered conn.id (request os names next e conn).0.1)
          (indexes (request os names next e conn).1.connections)
  request-Follows next e conn v = elim (request_refines next e conn v) [
    | inr a ↦ grants conn.id _ a
    | inl (failed, same) ↦ elim (Option-cases (request os names next e conn).0.1) [
      | inl granted ↦ absurd (failed granted)
      | inr (x, refused) ↦ rw (same, refused) (refuses conn.id x)
    ]
  ]

  pub close-Follows :
      (next : Option Next) (e : NsmEndpoint) (conn : Connection)
      → Follows e.cfg
          (indexes e.connections)
          (close_answered conn.id (close os names next e conn).0)
          (indexes (close os names next e conn).1.connections)
  close-Follows next e conn = elim (close_refines next e conn) [
    | inr gone ↦ rw gone (releases conn.id _)
    | inl (failed, same) ↦ elim (Option-cases (close os names next e conn).0) [
      | inl closed ↦ absurd (failed closed)
      | inr (x, refused) ↦ rw (same, refused) (cannot_close conn.id x)
    ]
  ]

  -- The clients of all connections that were visited are gone, or, with an error, those of the first.
  close_all_refines :
      (order : List NsmConnection) (e : NsmEndpoint)
      → (((close_all os names e order).0 ≡ none)
          × (indexes (close_all os names e order).1.connections
              ≡ release_all (ids order) (indexes e.connections)))
        ⊎ ((x : Error) × (ks rest : List Bytes) × ((close_all os names e order).0 ≡ some x)
            × (ids order ≡ ks ++ rest)
            × (indexes (close_all os names e order).1.connections
                ≡ release_all ks (indexes e.connections)))
  unfolding close_all
  close_all_refines [] e = inl (refl, refl)
  close_all_refines (c ∷ order) e =
      elim (Result-cases (build_interface_config os names e e.cfg c.conn)) [
        | inl (x, failed) ↦
            rw (not_closed os names e c.conn x failed, close_all)
              (rw (not_closed os names e c.conn x failed)
                (inr (x, [], ids (c ∷ order), refl, refl, refl)))
        | inr ((config, i), built) ↦
            let after = record e {
              localclient = delete (config ∷ []) ∷ e.localclient;
              connections = erase c.conn.id e.connections;
            } in
            rw (closed os names e c.conn config i built, close_all)
              (rw (closed os names e c.conn config i built) (elim (close_all_refines order after) [
                | inl (done, gone) ↦ inl (
                  done,
                  gone ∙ ap (release_all (ids order)) (indexes-erase c.conn.id e.connections),
                )
                | inr (x, ks, rest, failed, parts, gone) ↦ inr (
                  x,
                  c.conn.id ∷ ks,
                  rest,
                  failed,
                  ap (λ l. c.conn.id ∷ l) parts,
                  gone ∙ ap (release_all ks) (indexes-erase c.conn.id e.connections),
                )
              ]))
      ]

  pub close_connections-Follows :
      (e : NsmEndpoint) (order : List NsmConnection)
      → Follows e.cfg
          (indexes e.connections)
          (close_all_answered (ids order) (close_connections os names e order).0)
          (indexes (close_connections os names e order).1.connections)
  unfolding close_connections
  close_connections-Follows e order = elim (close_all_refines order e) [
    | inl (done, gone) ↦ rw (done, gone) (releases_all (ids order))
    | inr (x, ks, rest, failed, parts, gone) ↦ rw (failed, gone, parts) (releases_some ks rest x)
  ]

-- An endpoint after any calls, with their answers.
pub data Served (names : SdkNames) (cfg : NetworkServiceEndpoint)
    : List Call → NsmEndpoint → Type 0 where
  fresh : Served names cfg [] (new_nsm_endpoint cfg)
  requested :
      (os : Os) (next : Option Next) (conn : Connection) {h : List Call} {e : NsmEndpoint}
      → Served names cfg h e
      → Served names cfg
          (request_answered conn.id (request os names next e conn).0.1 ∷ h)
          (request os names next e conn).1
  ended :
      (os : Os) (next : Option Next) (conn : Connection) {h : List Call} {e : NsmEndpoint}
      → Served names cfg h e
      → Served names cfg
          (close_answered conn.id (close os names next e conn).0 ∷ h)
          (close os names next e conn).1
  all_ended :
      (os : Os) (order : List NsmConnection) {h : List Call} {e : NsmEndpoint}
      → Served names cfg h e
      → Served names cfg
          (close_all_answered (ids order) (close_connections os names e order).0 ∷ h)
          (close_connections os names e order).1

Served-Reach :
    {names : SdkNames} {cfg : NetworkServiceEndpoint} {h : List Call} {e : NsmEndpoint}
    → Served names cfg h e
    → Reach names cfg e
Served-Reach fresh = created
Served-Reach (requested os next conn {e = e} s) = after (Served-Reach s) (requests os next e conn)
Served-Reach (ended os next conn {e = e} s) = after (Served-Reach s) (closes os next e conn)
Served-Reach (all_ended os order {e = e} s) = after (Served-Reach s) (closes_all os e order)

under :
    {names : SdkNames} {cfg : NetworkServiceEndpoint} {e : NsmEndpoint} {s t : Allocation}
    {c : Call}
    → Reach names cfg e
    → Follows e.cfg s c t
    → Follows cfg s c t
under {s = s} {t = t} {c = c} r =
    subst (λ (k : NetworkServiceEndpoint). Follows k s c t) (Reach-cfg r)

-- Whatever calls an endpoint answers, its clients' indexes are what these calls with these answers make
-- of those of no clients. A request gives its client the least index that no other client has (zero
-- where names end in labels), alone if the endpoint is for a single client, or answers with an error and
-- changes nothing. The closing of a connection frees the index of its client, or answers with an error
-- and changes nothing. Both may also do what they are for and answer with an error of the next endpoint.
-- The closing of all frees the indexes of all that are met, and those of the first ones if it answers
-- with an error.
pub allocation_refines :
    (names : SdkNames) (cfg : NetworkServiceEndpoint) (h : List Call) (e : NsmEndpoint)
    → Served names cfg h e
    → Runs cfg h (indexes e.connections)
unfolding new_nsm_endpoint indexes lookup
allocation_refines names cfg _ _ fresh = idle
allocation_refines names cfg _ _ (requested os next conn {e = e} s) =
    let r = Served-Reach s in
    next_call _ (allocation_refines names cfg _ e s)
      (under r (request-Follows os names next e conn (Reach-IsValid r)))
allocation_refines names cfg _ _ (ended os next conn {e = e} s) =
    next_call _ (allocation_refines names cfg _ e s)
      (under (Served-Reach s) (close-Follows os names next e conn))
allocation_refines names cfg _ _ (all_ended os order {e = e} s) =
    next_call _ (allocation_refines names cfg _ e s)
      (under (Served-Reach s) (close_connections-Follows os names e order))
