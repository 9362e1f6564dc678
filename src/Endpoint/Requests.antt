-- ===== src/Endpoint/Requests.antt =====
-- What a connection request does, and the closing of the connection after it.
use cnf_nsm.Common.{
  ℕ, ◌≡◌, ◌≢◌, refl, true, false, ◌&&◌, [], ◌∷◌, Option, none, some, Bytes, arith, ltb, length,
  Bool-cases, inl, inr, str_eq, str_eq_iff, str_eq_refl,
}
use cnf_nsm.Common.GoMap.{lookup, erase, insert, lookup-erase, lookup-insert}
use cnf_nsm.Errors.{ok, only_single_client}
use cnf_nsm.External.{Os, SdkNames, Connection, InterfaceConfig, update, delete}
use cnf_nsm.Endpoint.{
  NsmEndpoint, Next, get_connection_index, interface_name, build_interface_config, close_connection,
  forget, admit, drop_duplicate, request, known_index, after_request, close,
}
use cnf_nsm.Endpoint.Config.{built_by_index}
use cnf_nsm.Endpoint.Invariant.{close_connection_cases, admit_cases}

-- The endpoint behind a request that opened a connection.
abbrev pub opened : NsmEndpoint → Connection → InterfaceConfig → ℕ → NsmEndpoint
opened e conn c i = record e {
  localclient = update (c ∷ []) ∷ e.localclient;
  connections = insert conn.id (record { index = i; conn = conn }) e.connections;
}

module _ (os : Os) (names : SdkNames) where
  admit_others :
      (next : Option Next) (e : NsmEndpoint) (conn : Connection) (other : Bytes)
      → conn.id ≢ other
      → lookup other (admit os names next e conn).1.connections ≡ lookup other e.connections
  admit_others next e conn other ne =
      admit_cases os names (λ r. lookup other r.1.connections ≡ lookup other e.connections) next e
        conn (λ x. refl)
        λ c i built room r. ground (
          arith,
          lookup-insert conn.id other (record { index = i; conn = conn }) e.connections,
          str_eq_iff conn.id other,
        )

  close_connection_others :
      (e : NsmEndpoint) (conn : Connection) (other : Bytes)
      → conn.id ≢ other
      → lookup other (close_connection os names e conn).1.connections ≡ lookup other e.connections
  close_connection_others e conn other ne =
      close_connection_cases os names
        (λ r. lookup other r.1.connections ≡ lookup other e.connections) e conn (λ x h. refl)
        λ c i built.
          ground (arith, lookup-erase conn.id other e.connections, str_eq_iff conn.id other)

  drop_duplicate_others :
      (e : NsmEndpoint) (conn : Connection) (other : Bytes)
      → conn.id ≢ other
      → lookup other (drop_duplicate os names e conn).1.connections ≡ lookup other e.connections
  unfolding drop_duplicate
  drop_duplicate_others e conn other ne = ground (arith, close_connection_others e conn other)

  -- A request leaves the connections of all other clients as they were, on every branch.
  pub request_others :
      (next : Option Next) (e : NsmEndpoint) (conn : Connection) (other : Bytes)
      → conn.id ≢ other
      → lookup other (request os names next e conn).1.connections ≡ lookup other e.connections
  unfolding request
  request_others next e conn other ne = ground (
    arith,
    drop_duplicate_others e conn other ne,
    admit_others next (drop_duplicate os names e conn).1 conn other ne,
  )

  -- An endpoint for a single client that has a connection refuses the request of another client, and
  -- stays as it was.
  pub request_refused :
      (next : Option Next) (e : NsmEndpoint) (conn : Connection)
      → e.cfg.single_client ≡ true
      → e.connections ≢ []
      → lookup conn.id e.connections ≡ none
      → request os names next e conn ≡ ((conn, some only_single_client), e)
  unfolding request drop_duplicate admit
  request_refused next e conn single busy absent = ground arith

  -- A request of a new client for which a configuration can be built, and that is not one too many,
  -- sends the configuration to the agent, stores the connection, and answers with what the handler
  -- behind the endpoint answers.
  pub request_opened :
      (next : Option Next) (e : NsmEndpoint) (conn : Connection) (c : InterfaceConfig) (i : ℕ)
      → lookup conn.id e.connections ≡ none
      → (e.cfg.single_client && ltb 0 (length e.connections)) ≡ false
      → build_interface_config os names e e.cfg conn ≡ ok (c, i)
      → request os names next e conn ≡ (after_request os names next conn, opened e conn c i)
  unfolding request drop_duplicate admit
  request_opened next e conn c i absent room built = ground arith

  opened_index :
      (e : NsmEndpoint) (conn : Connection) (c : InterfaceConfig) (i : ℕ)
      → get_connection_index (opened e conn c i) conn ≡ i
  unfolding get_connection_index known_index
  opened_index e conn c i = ground (
    arith,
    lookup-insert conn.id conn.id (record { index = i; conn = conn }) e.connections,
    str_eq_refl conn.id,
  )

  opened_name :
      (e : NsmEndpoint) (conn : Connection) (c : InterfaceConfig) (i : ℕ)
      → build_interface_config os names e e.cfg conn ≡ ok (c, i)
      → interface_name (opened e conn c i) e.cfg conn ≡ interface_name e e.cfg conn
  opened_name e conn c i built =
      let label = e.cfg.interface_name_suffix_from_label in
      elim (Bool-cases (str_eq label [])) [
        | inl by_index ↦
            unfold interface_name in
            ground (
              arith,
              opened_index e conn c i,
              (built_by_index os names e conn built ((str_eq_iff label []).0 by_index)).1,
            )
        | inr by_label ↦ unfold interface_name in ground arith
      ]

  -- The configuration built for an open connection is the one that was built to open it.
  rebuilt :
      (e : NsmEndpoint) (conn : Connection) (c : InterfaceConfig) (i : ℕ)
      → build_interface_config os names e e.cfg conn ≡ ok (c, i)
      → build_interface_config os names (opened e conn c i) e.cfg conn ≡ ok (c, i)
  unfolding build_interface_config
  rebuilt e conn c i built = rw (opened_name e conn c i built, build_interface_config) built

  closed_opened :
      (e : NsmEndpoint) (conn : Connection) (c : InterfaceConfig) (i : ℕ)
      → build_interface_config os names e e.cfg conn ≡ ok (c, i)
      → close_connection os names (opened e conn c i) conn ≡ (
        none,
        record e {
          localclient = delete (c ∷ []) ∷ update (c ∷ []) ∷ e.localclient;
          connections = erase conn.id (opened e conn c i).connections;
        },
      )
  unfolding close_connection forget
  closed_opened e conn c i built = rw (rebuilt e conn c i built, close_connection)

  closed_state :
      (next : Option Next) (e : NsmEndpoint) (conn : Connection)
      → (close os names next e conn).1 ≡ (close_connection os names e conn).1
  unfolding close
  closed_state next e conn = ground arith

  -- Closing a connection right behind the request that opened it, while the operating system answers
  -- alike, deletes the very configuration that was sent, and leaves every client's connection as it was
  -- before the request. The client is new, a configuration can be built for it, and it is not one
  -- client too many; whatever the handler behind the endpoint answers.
  pub close-request :
      (next : Option Next) (e : NsmEndpoint) (conn : Connection) (c : InterfaceConfig) (i : ℕ)
      → lookup conn.id e.connections ≡ none
      → (e.cfg.single_client && ltb 0 (length e.connections)) ≡ false
      → build_interface_config os names e e.cfg conn ≡ ok (c, i)
      → ((close os names next (request os names next e conn).1 conn).1.localclient
          ≡ delete (c ∷ []) ∷ update (c ∷ []) ∷ e.localclient)
        × ((id : Bytes)
            → lookup id (close os names next (request os names next e conn).1 conn).1.connections
              ≡ lookup id e.connections)
  close-request next e conn c i absent room built =
      rw
        (
          request_opened next e conn c i absent room built,
          closed_state next (opened e conn c i) conn,
          closed_opened e conn c i built,
        )
        (
          refl,
          λ id. ground (
            arith,
            lookup-erase conn.id id (opened e conn c i).connections,
            lookup-insert conn.id id (record { index = i; conn = conn }) e.connections,
            str_eq_iff conn.id id,
          ),
        )

  -- The end of a connection leaves the connections of all other clients as they were, on every branch.
  pub close_others :
      (next : Option Next) (e : NsmEndpoint) (conn : Connection) (other : Bytes)
      → conn.id ≢ other
      → lookup other (close os names next e conn).1.connections ≡ lookup other e.connections
  close_others next e conn other ne =
      rw (closed_state next e conn) (close_connection_others e conn other ne)
