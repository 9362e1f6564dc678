-- ===== src/Endpoint/Reach.antt =====
-- The states that an endpoint can reach, and what holds in each of them.
use cnf_nsm.Common.{◌≤◌, ◌≡◌, refl, ap, ◌∙◌, true, ◌&&◌, List, [], Option, Bytes, length}
use cnf_nsm.External.{Os, SdkNames, Connection, InterfaceKind, same_kind, configured}
use cnf_nsm.External.Kinds.{interface_kind}
use cnf_nsm.Proto.{NetworkServiceEndpoint}
use cnf_nsm.Endpoint.{
  NsmConnection, NsmEndpoint, Next, new_nsm_endpoint, request, close, close_connections,
}
use cnf_nsm.Endpoint.Names.{open_name, HasDistinctIds, HasDistinctIndexes}
use cnf_nsm.Endpoint.Kept.{cfg-request, cfg-close, cfg-close_all}
use cnf_nsm.Endpoint.Invariant.{
  IsValid, new_nsm_endpoint-IsValid, request-IsValid, close-IsValid, close_all-IsValid,
}

-- One call of the endpoint. The operating system, the handler behind the endpoint and the order of an
-- iteration may differ from call to call.
pub data Step (names : SdkNames) : NsmEndpoint → NsmEndpoint → Type 0 where
  requests :
      (os : Os) (next : Option Next) (e : NsmEndpoint) (conn : Connection)
      → Step names e (request os names next e conn).1
  closes :
      (os : Os) (next : Option Next) (e : NsmEndpoint) (conn : Connection)
      → Step names e (close os names next e conn).1
  closes_all :
      (os : Os) (e : NsmEndpoint) (order : List NsmConnection)
      → Step names e (close_connections os names e order).1

pub data Reach (names : SdkNames) (cfg : NetworkServiceEndpoint) : NsmEndpoint → Type 0 where
  created : Reach names cfg (new_nsm_endpoint cfg)
  after : {e e' : NsmEndpoint} → Reach names cfg e → Step names e e' → Reach names cfg e'

Step-IsValid : {names : SdkNames} {e e' : NsmEndpoint} → Step names e e' → IsValid e → IsValid e'
unfolding close_connections
Step-IsValid {names} (requests os next e conn) v = request-IsValid os names next e conn v
Step-IsValid {names} (closes os next e conn) v = close-IsValid os names next e conn v
Step-IsValid {names} (closes_all os e order) v = close_all-IsValid os names e order v

pub Reach-IsValid :
    {names : SdkNames} {cfg : NetworkServiceEndpoint} {e : NsmEndpoint}
    → Reach names cfg e
    → IsValid e
Reach-IsValid {cfg = cfg} created = new_nsm_endpoint-IsValid cfg
Reach-IsValid (after r s) = Step-IsValid s (Reach-IsValid r)

Step-cfg : {names : SdkNames} {e e' : NsmEndpoint} → Step names e e' → e'.cfg ≡ e.cfg
unfolding close_connections
Step-cfg {names} (requests os next e conn) = cfg-request os names next e conn
Step-cfg {names} (closes os next e conn) = cfg-close os names next e conn
Step-cfg {names} (closes_all os e order) = cfg-close_all os names e order

pub Reach-cfg :
    {names : SdkNames} {cfg : NetworkServiceEndpoint} {e : NsmEndpoint}
    → Reach names cfg e
    → e.cfg ≡ cfg
Reach-cfg created = unfold new_nsm_endpoint in refl
Reach-cfg (after r s) = Step-cfg s ∙ Reach-cfg r

-- After any calls of an endpoint whose interface names end in indexes, an interface of a name is
-- configured exactly if it is of the kind of the endpoint and the name is the prefix with the index of an open connection.
pub configured-open_name :
    (names : SdkNames) (cfg : NetworkServiceEndpoint) (e : NsmEndpoint)
    → Reach names cfg e
    → cfg.interface_name_suffix_from_label ≡ []
    → (k : InterfaceKind) (n : Bytes)
    → configured k e.localclient n ≡ (
        same_kind (interface_kind cfg.interface_type) k
        && open_name cfg.interface_name_prefix e.connections n)
configured-open_name names cfg e r by_index k n =
    let live = ((Reach-IsValid r).tracks (rw (Reach-cfg r) by_index)).live k n in
    live
    ∙ ap
        (λ (c : NetworkServiceEndpoint).
          same_kind (interface_kind c.interface_type) k
          && open_name c.interface_name_prefix e.connections n)
        (Reach-cfg r)

-- After any calls an endpoint for a single client has at most one connection.
pub single_client_bound :
    (names : SdkNames) (cfg : NetworkServiceEndpoint) (e : NsmEndpoint)
    → Reach names cfg e
    → cfg.single_client ≡ true
    → length e.connections ≤ 1
single_client_bound names cfg e r single = (Reach-IsValid r).single (rw (Reach-cfg r) single)

-- After any calls no two open connections of an endpoint whose interface names end in indexes have
-- one index, and no two have one identifier.
pub distinct_connections :
    (names : SdkNames) (cfg : NetworkServiceEndpoint) (e : NsmEndpoint)
    → Reach names cfg e
    → cfg.interface_name_suffix_from_label ≡ []
    → HasDistinctIds e.connections × HasDistinctIndexes e.connections
distinct_connections names cfg e r by_index =
    let v = Reach-IsValid r in (v.ids, (v.tracks (rw (Reach-cfg r) by_index)).indexes)
