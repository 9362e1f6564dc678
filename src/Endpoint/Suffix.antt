-- ===== src/Endpoint/Suffix.antt =====
-- Endpoints that take the suffix of an interface's name from a label of the client.
use cnf_nsm.Common.{
  ◌≡◌, ◌≢◌, false, [], ◌++◌, Option, none, some, Bytes, arith, str_eq_iff, str_eq_refl,
}
use cnf_nsm.Common.GoMap.{lookup, lookup-erase}
use cnf_nsm.External.{Os, SdkNames, Connection, configured, names_one}
use cnf_nsm.Endpoint.{NsmConnection, NsmEndpoint, close_connection, close, Next}
use cnf_nsm.Endpoint.Config.{built_by_label, built_kind}
use cnf_nsm.External.Kinds.{interface_kind, same_kind_refl}
use cnf_nsm.Endpoint.Invariant.{close_connection_cases}

module _ (os : Os) (names : SdkNames) (e : NsmEndpoint) where
  removed_shared :
      (c : NsmConnection) (conn : Connection) (label suffix : Bytes)
      → e.cfg.interface_name_suffix_from_label ≡ label
      → label ≢ []
      → lookup label conn.labels ≡ some suffix
      → conn.id ≢ c.conn.id
      → lookup c.conn.id e.connections ≡ some c
      → (close_connection os names e conn).0 ≡ none
      → (configured
            (interface_kind e.cfg.interface_type)
            (close_connection os names e conn).1.localclient
            (e.cfg.interface_name_prefix ++ suffix)
          ≡ false)
        × (lookup c.conn.id (close_connection os names e conn).1.connections ≡ some c)
  unfolding configured names_one
  removed_shared c conn label suffix by_label nonempty labelled other open_c =
      close_connection_cases os names
        (λ r.
          r.0 ≡ none
          → (configured (interface_kind e.cfg.interface_type) r.1.localclient
                (e.cfg.interface_name_prefix ++ suffix)
              ≡ false)
            × (lookup c.conn.id r.1.connections ≡ some c))
        e conn (λ x h failed. cc)
        λ config i built _. (
          ground (
            arith,
            built_by_label os names e conn built label suffix by_label
                (ground (arith, str_eq_iff label [])) labelled,
            built_kind os names e conn built,
            same_kind_refl (interface_kind e.cfg.interface_type),
            str_eq_refl (e.cfg.interface_name_prefix ++ suffix),
          ),
          ground
              (arith, lookup-erase conn.id c.conn.id e.connections, str_eq_iff conn.id c.conn.id),
        )

  close_state :
      (next : Option Next) (conn : Connection)
      → ((close os names next e conn).1 ≡ (close_connection os names e conn).1)
        × ((close os names next e conn).0 ≡ none → (close_connection os names e conn).0 ≡ none)
  unfolding close
  close_state next conn = (ground arith, λ h. ground arith)

  -- Two clients of an endpoint that takes suffixes from a label may come with one value of that label.
  -- Once the connection of the one is closed without an error, no interface of their common name is
  -- configured, of the kind of the endpoint, while the connection of the other is still open.
  pub close_shared_suffix :
      (next : Option Next) (c : NsmConnection) (conn : Connection) (label suffix : Bytes)
      → e.cfg.interface_name_suffix_from_label ≡ label
      → label ≢ []
      → lookup label c.conn.labels ≡ some suffix
      → lookup label conn.labels ≡ some suffix
      → conn.id ≢ c.conn.id
      → lookup c.conn.id e.connections ≡ some c
      → (close os names next e conn).0 ≡ none
      → (configured
            (interface_kind e.cfg.interface_type)
            (close os names next e conn).1.localclient
            (e.cfg.interface_name_prefix ++ suffix)
          ≡ false)
        × (lookup c.conn.id (close os names next e conn).1.connections ≡ some c)
  close_shared_suffix next c conn label suffix by_label nonempty _ labelled other open_c done =
      let (state, closed) = close_state next conn in
      rw state
        (removed_shared c conn label suffix by_label nonempty labelled other open_c (closed done))
