-- ===== src/Endpoint/Tracking.antt =====
-- How the interfaces that are configured relate to the open connections.
use cnf_nsm.Common.{
  ℕ, ◌≡◌, false, not, ◌&&◌, [], ◌∷◌, ◌++◌, none, Bytes, arith, str_eq, Option-cases, inl, inr,
}
use cnf_nsm.Common.GoMap.{lookup, erase, insert, erase_absent}
use cnf_nsm.GoLib.Decimal.{itoa}
use cnf_nsm.External.Kinds.{interface_kind}
use cnf_nsm.External.{
  same_kind, InterfaceKind, config_kind, Connection, InterfaceConfig, config_name, update, delete,
  configured, names_one,
}
use cnf_nsm.Endpoint.{NsmEndpoint, get_connection_index, uses_connection_index}
use cnf_nsm.Endpoint.Index.{allocate_connection_index_lem}
use cnf_nsm.Endpoint.Names.{
  HasDistinctIds, HasDistinctIndexes, HasDistinctIndexes-erase, open_name, open_name-erase,
  open_name_free, uses-erase,
}

-- The connections have distinct indexes, and an interface is configured exactly if it is of the kind of
-- the endpoint and has the name of an open connection.
pub record Tracks (e : NsmEndpoint) : Type 0 where
  pub indexes : HasDistinctIndexes e.connections
  pub live :
      (k : InterfaceKind) (n : Bytes)
      → configured k e.localclient n ≡ (
          same_kind (interface_kind e.cfg.interface_type) k
          && open_name e.cfg.interface_name_prefix e.connections n)

module _ (e : NsmEndpoint) (conn : Connection) (config : InterfaceConfig) (i : ℕ)
    (kind : config_kind config ≡ interface_kind e.cfg.interface_type)
    (named : config_name config ≡ e.cfg.interface_name_prefix ++ itoa i) (t : Tracks e) where
  erased_name :
      HasDistinctIds e.connections
      → i ≡ get_connection_index e conn
      → (n : Bytes)
      → open_name e.cfg.interface_name_prefix (erase conn.id e.connections) n ≡ (
          not (str_eq (e.cfg.interface_name_prefix ++ itoa i) n)
          && open_name e.cfg.interface_name_prefix e.connections n)
  unfolding get_connection_index
  erased_name ids index n = elim (Option-cases (lookup conn.id e.connections)) [
    | inl absent ↦ ground (
      arith,
      erase_absent conn.id e.connections,
      (allocate_connection_index_lem e).0.free,
      open_name_free e.cfg.interface_name_prefix n e.connections i,
    )
    | inr (c, found) ↦ ground (
      arith,
      open_name-erase e.cfg.interface_name_prefix conn.id n e.connections c found ids t.indexes,
    )
  ]

  pub Tracks-delete :
      HasDistinctIds e.connections
      → i ≡ get_connection_index e conn
      → Tracks (record e {
        localclient = delete (config ∷ []) ∷ e.localclient;
        connections = erase conn.id e.connections;
      })
  unfolding configured names_one
  Tracks-delete ids index = record {
    indexes = HasDistinctIndexes-erase conn.id e.connections t.indexes;
    live = λ k n. ground (arith, kind, named, t.live k n, erased_name ids index n);
  }

  -- The new connection must be a new one, with an index that is free.
  pub Tracks-update :
      lookup conn.id e.connections ≡ none
      → uses_connection_index e.connections i ≡ false
      → Tracks (record e {
        localclient = update (config ∷ []) ∷ e.localclient;
        connections = insert conn.id (record { index = i; conn = conn }) e.connections;
      })
  unfolding configured names_one insert open_name
  Tracks-update absent free = record {
    indexes = (
      uses-erase conn.id e.connections i free,
      HasDistinctIndexes-erase conn.id e.connections t.indexes,
    );
    live = λ k n. ground (arith, kind, named, t.live k n, erase_absent conn.id e.connections);
  }
