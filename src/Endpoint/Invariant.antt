-- ===== src/Endpoint/Invariant.antt =====
-- What holds of an endpoint after any calls.
use cnf_nsm.Common.{
  ℕ, ◌≤◌, ◌≡◌, refl, true, false, ◌&&◌, List, [], ◌∷◌, Option, none, some, arith, ltb, length,
  Option-cases, Bool-cases, inl, inr, str_eq_refl,
}
use cnf_nsm.Common.GoMap.{lookup, erase, insert, lookup-erase, length-erase-le}
use cnf_nsm.Errors.{Error, ok, err, only_single_client}
use cnf_nsm.External.{Os, SdkNames, Connection, InterfaceConfig, update, delete, configured}
use cnf_nsm.Proto.{NetworkServiceEndpoint}
use cnf_nsm.Endpoint.{
  NsmConnection, NsmEndpoint, Next, new_nsm_endpoint, get_connection_index, build_interface_config,
  close_connection, close_all, admit, open_with, after_request, known_index, uses_connection_index,
  drop_duplicate, request, close,
}
use cnf_nsm.Endpoint.Index.{allocate_connection_index_lem}
use cnf_nsm.Endpoint.Names.{HasDistinctIds, IsKeyed, HasDistinctIds-erase, IsKeyed-erase, open_name}
use cnf_nsm.Errors.{Result-cases}
use cnf_nsm.Endpoint.Config.{built_kind, built_by_index}
use cnf_nsm.Endpoint.Tracking.{Tracks, Tracks-delete, Tracks-update}

-- The map binds each connection once, to its own identifier; an endpoint for a single client has at
-- most one connection; and with names that end in indexes the interfaces track the connections.
pub record IsValid (e : NsmEndpoint) : Type 0 where
  pub keyed : IsKeyed e.connections
  pub ids : HasDistinctIds e.connections
  pub single : e.cfg.single_client ≡ true → length e.connections ≤ 1
  pub tracks : e.cfg.interface_name_suffix_from_label ≡ [] → Tracks e

pub new_nsm_endpoint-IsValid : (cfg : NetworkServiceEndpoint) → IsValid (new_nsm_endpoint cfg)
unfolding new_nsm_endpoint open_name configured
new_nsm_endpoint-IsValid cfg = record {
  keyed = tt;
  ids = tt;
  single = λ s. omega arith;
  tracks = λ h. record { indexes = tt; live = λ k n. ground arith };
}

module _ (os : Os) (names : SdkNames) where
  -- The two outcomes of closing a connection.
  pub close_connection_cases {ℓ} :
      (P : Option Error × NsmEndpoint → Type ℓ) (e : NsmEndpoint) (conn : Connection)
      → ((x : Error) → build_interface_config os names e e.cfg conn ≡ err x → P (some x, e))
      → ((c : InterfaceConfig) (i : ℕ)
          → build_interface_config os names e e.cfg conn ≡ ok (c, i)
          → P (
            none,
            record e {
              localclient = delete (c ∷ []) ∷ e.localclient;
              connections = erase conn.id e.connections;
            },
          ))
      → P (close_connection os names e conn)
  unfolding close_connection
  close_connection_cases P e conn failed closed =
      elim (Result-cases (build_interface_config os names e e.cfg conn)) [
        | inl (x, h) ↦ rw (h, close_connection) (failed x h)
        | inr ((c, i), h) ↦ rw (h, close_connection) (closed c i h)
      ]

  pub close_connection-IsValid :
      (e : NsmEndpoint) (conn : Connection)
      → IsValid e
      → IsValid (close_connection os names e conn).1
  close_connection-IsValid e conn v =
      close_connection_cases (λ r. IsValid r.1) e conn (λ x h. v)
        λ c i h. record {
          keyed = IsKeyed-erase conn.id e.connections v.keyed;
          ids = HasDistinctIds-erase conn.id e.connections v.ids;
          single = λ s. omega (arith, v.single s, length-erase-le conn.id e.connections);
          tracks = λ by_index.
              let (named, index) = built_by_index os names e conn h by_index in
              let kind = built_kind os names e conn h in
              Tracks-delete e conn c i kind named (v.tracks by_index) v.ids index;
        }

  -- The outcomes of the rest of a request: refused, failed, or opened.
  pub admit_cases {ℓ} :
      (P : (Connection × Option Error) × NsmEndpoint → Type ℓ) (next : Option Next)
      (e : NsmEndpoint) (conn : Connection)
      → ((x : Error) → P ((conn, some x), e))
      → ((c : InterfaceConfig) (i : ℕ)
          → build_interface_config os names e e.cfg conn ≡ ok (c, i)
          → (e.cfg.single_client ≡ true → length e.connections ≤ 0)
          → (r : Connection × Option Error)
          → P (
            r,
            record e {
              localclient = update (c ∷ []) ∷ e.localclient;
              connections = insert conn.id (record { index = i; conn = conn }) e.connections;
            },
          ))
      → P (admit os names next e conn)
  unfolding admit
  admit_cases P next e conn refused opened =
      elim (Bool-cases (e.cfg.single_client && ltb 0 (length e.connections))) [
        | inl taken ↦ rw taken (refused only_single_client)
        | inr room ↦ elim (Result-cases (build_interface_config os names e e.cfg conn)) [
          | inl (x, h) ↦ rw (room, h, open_with) (refused x)
          | inr ((c, i), h) ↦
              rw (room, h, open_with)
                (opened c i h (λ s. ground arith) (after_request os names next conn))
        ]
      ]

  fresh_index :
      (e : NsmEndpoint) (conn : Connection)
      → lookup conn.id e.connections ≡ none
      → uses_connection_index e.connections (get_connection_index e conn) ≡ false
  unfolding get_connection_index
  fresh_index e conn absent = rw (absent, known_index) (allocate_connection_index_lem e).0.free

  admit-IsValid :
      (next : Option Next) (e : NsmEndpoint) (conn : Connection)
      → IsValid e
      → lookup conn.id e.connections ≡ none
      → IsValid (admit os names next e conn).1
  unfolding insert
  admit-IsValid next e conn v absent =
      admit_cases (λ r. IsValid r.1) next e conn (λ x. v)
        λ c i h room r. record {
          keyed = (refl, IsKeyed-erase conn.id e.connections v.keyed);
          ids = (
            rw (lookup-erase, str_eq_refl) refl,
            HasDistinctIds-erase conn.id e.connections v.ids,
          );
          single = λ s. omega (arith, room s, length-erase-le conn.id e.connections);
          tracks = λ by_index.
              let (named, index) = built_by_index os names e conn h by_index in
              let kind = built_kind os names e conn h in
              Tracks-update e conn c i kind named (v.tracks by_index) absent
                (rw index (fresh_index e conn absent));
        }

  -- A duplicate is gone unless closing it failed.
  drop_duplicate_lem :
      (e : NsmEndpoint) (conn : Connection)
      → IsValid e
      → IsValid (drop_duplicate os names e conn).1
        × ((drop_duplicate os names e conn).0 ≡ none
            → lookup conn.id (drop_duplicate os names e conn).1.connections ≡ none)
  unfolding drop_duplicate
  drop_duplicate_lem e conn v = elim (Option-cases (lookup conn.id e.connections)) [
    | inl absent ↦ rw (absent, drop_duplicate) (v, λ _. absent)
    | inr (c, found) ↦ rw (found, drop_duplicate) (close_connection-IsValid e conn v, gone)
  ]
    where
      gone :
          (close_connection os names e conn).0 ≡ none
          → lookup conn.id (close_connection os names e conn).1.connections ≡ none
      gone =
          close_connection_cases (λ r. r.0 ≡ none → lookup conn.id r.1.connections ≡ none) e conn
            (λ x h impossible. cc) (λ c i h _. rw (lookup-erase, str_eq_refl) refl)

  -- A connection request keeps the endpoint valid, on every branch.
  pub request-IsValid :
      (next : Option Next) (e : NsmEndpoint) (conn : Connection)
      → IsValid e
      → IsValid (request os names next e conn).1
  unfolding request
  request-IsValid next e conn v =
      let (kept, gone) = drop_duplicate_lem e conn v in
      elim (Option-cases (drop_duplicate os names e conn).0) [
        | inl done ↦
            rw (done, request)
              (admit-IsValid next (drop_duplicate os names e conn).1 conn kept (gone done))
        | inr (x, failed) ↦ rw (failed, request) kept
      ]

  pub close-IsValid :
      (next : Option Next) (e : NsmEndpoint) (conn : Connection)
      → IsValid e
      → IsValid (close os names next e conn).1
  unfolding close
  close-IsValid next e conn v =
      let kept = close_connection-IsValid e conn v in
      elim (Option-cases (close_connection os names e conn).0) [
        | inl done ↦ rw (done, close) kept
        | inr (x, failed) ↦ rw (failed, close) kept
      ]

  pub close_all-IsValid :
      (e : NsmEndpoint) (order : List NsmConnection)
      → IsValid e
      → IsValid (close_all os names e order).1
  unfolding close_all
  close_all-IsValid e [] v = v
  close_all-IsValid e (c ∷ order) v =
      let kept = close_connection-IsValid e c.conn v in
      elim (Option-cases (close_connection os names e c.conn).0) [
        | inl done ↦
            rw (done, close_all)
              (close_all-IsValid (close_connection os names e c.conn).1 order kept)
        | inr (x, failed) ↦ rw (failed, close_all) kept
      ]
