-- ===== src/Mesh/Population/Held.antt =====
-- The connections that the clients have at the endpoints.
use mathlib.Core.Path.{subst}
use mathlib.Core.Option.{some-ne-none, some-injective}
use cnf_nsm.Common.{
  str_eq_ne, ◌≡◌, ◌≢◌, refl, sym, ap, ◌∙◌, List, [], ◌∷◌, some, none, Bytes, inl, inr, str_eq,
  str_eq_iff, Bool-cases, if◌then◌else◌,
}
use cnf_nsm.Common.GoMap.{lookup, lookup-inserted}
use cnf_nsm.External.{NsConfiguration, Os, SdkNames, Connection}
use cnf_nsm.Endpoint.{NsmConnection, NsmEndpoint, request, close}
use cnf_nsm.Endpoint.Requests.{request_others, close_others}
use cnf_nsm.Endpoint.Granted.{IsGranted}
use cnf_nsm.Demux.{DemuxEnv, EndpointReg, NsmEndpointDemux, demux_request, demux_close}
use cnf_nsm.Demux.Registering.{delete_endpoint-others}
use cnf_nsm.Demux.Routing.{demux_routing, handled}
use cnf_nsm.EndpointDescriptor.Outcomes.{create_registers}
use cnf_nsm.EndpointDescriptor.{
  Composite, delete, delete_nse, NsmEndpointDescriptor, endpoint_handlers,
}
use cnf_nsm.EndpointDescriptor.System.{ep_demux-publish}
use cnf_nsm.EndpointDescriptor
use cnf_nsm.Errors.{Error}
use cnf_nsm.ClientDescriptor.{NsmClientMetadata}
use cnf_nsm.Mesh.{last_handlers}
use cnf_nsm.EndpointDescriptor.Passing.{IsPassing}
use cnf_nsm.Mesh.Population.{IsIn, IsStrange}
use cnf_nsm.Proto.{NetworkServiceEndpoint}

-- The connection of a client is open at the endpoint of its network service.
abbrev pub Holds : NsmEndpointDemux NsmEndpoint → NsmClientMetadata → Type 0
Holds x m =
    (ep : EndpointReg NsmEndpoint) × (c : NsmConnection) × (lookup m.nsm_conn.network_service
        x.endpoints
      ≡ some ep)
    × (lookup m.nsm_conn.id ep.service.connections ≡ some c)

pub IsStrange-ne :
    (conn : Connection) (m : NsmClientMetadata) (live : List NsmClientMetadata)
    → IsStrange conn live
    → IsIn m live
    → conn.id ≢ m.nsm_conn.id
IsStrange-ne conn m [] s i = absurd i
IsStrange-ne conn m (l ∷ live) s (inl e) = rw e s.0
IsStrange-ne conn m (l ∷ live) s (inr i) = IsStrange-ne conn m live s.1 i

-- One endpoint has another state, in which it keeps the connection.
Holds-handled :
    (x x' : NsmEndpointDemux NsmEndpoint) (m : NsmClientMetadata) (service : Bytes)
    (ep : EndpointReg NsmEndpoint) (e : NsmEndpoint)
    → Holds x m
    → lookup service x.endpoints ≡ some ep
    → lookup m.nsm_conn.network_service x'.endpoints ≡ (
        if str_eq service m.nsm_conn.network_service
        then some (handled ep e)
        else lookup m.nsm_conn.network_service x.endpoints)
    → lookup m.nsm_conn.id e.connections ≡ lookup m.nsm_conn.id ep.service.connections
    → Holds x' m
Holds-handled x x' m service ep e (its, c, at, bound) found now kept =
    elim (Bool-cases (str_eq service m.nsm_conn.network_service)) [
      | inl same ↦
          let equal : its ≡ ep = some-injective _ _ (
            sym at
            ∙ ap (λ (n : Bytes). lookup n x.endpoints) (sym ((str_eq_iff _ _).0 same))
            ∙ found) in
          (
            handled ep e,
            c,
            now ∙ rw same refl,
            kept
                ∙ subst
                    (λ (r : EndpointReg NsmEndpoint).
                      lookup m.nsm_conn.id r.service.connections ≡ some c)
                    equal bound,
          )
      | inr differs ↦ (its, c, now ∙ rw differs at, bound)
    ]

module _ (os : Os) (names : SdkNames) (composite : Composite) (passing : IsPassing composite)
    (order : NsmEndpoint → List NsmConnection) (e : NsmEndpoint) (conn : Connection) (id : Bytes)
    (other : conn.id ≢ id) where
  -- The connections of the others, behind the composite.
  handler_request-others :
      lookup id ((last_handlers os names composite order).request e conn).1.connections
      ≡ lookup id e.connections
  unfolding endpoint_handlers
  handler_request-others = elim (passing.request_passes (request os names none) e conn) [
    | inl (x, refused) ↦ rw refused refl
    | inr passed ↦ rw passed (
        request_others os names none e (passing.prepare conn) id
          (subst (λ (k : Bytes). k ≢ id) (sym (passing.same_id conn)) other))
  ]

  handler_close-others :
      lookup id ((last_handlers os names composite order).close e conn).1.connections
      ≡ lookup id e.connections
  unfolding endpoint_handlers
  handler_close-others = elim (passing.close_passes (close os names none) e conn) [
    | inl (x, refused) ↦ rw refused refl
    | inr passed ↦ rw passed (close_others os names none e conn id other)
  ]

module _ (os : Os) (names : SdkNames) (composite : Composite) (passing : IsPassing composite)
    (order : NsmEndpoint → List NsmConnection) (x : NsmEndpointDemux NsmEndpoint)
    (conn : Connection) (m : NsmClientMetadata) (held : Holds x m)
    (other : conn.id ≢ m.nsm_conn.id) where
  pub Holds-demux_request :
      Holds (demux_request (last_handlers os names composite order) x conn).1 m
  Holds-demux_request = elim (demux_routing (last_handlers os names composite order) x conn) [
    | inl (_, refused, _) ↦ rw refused held
    | inr (ep, found, _, _, others) ↦
        Holds-handled x (demux_request (last_handlers os names composite order) x conn).1 m
          conn.network_service ep
          ((last_handlers os names composite order).request ep.service conn).1 held found
          (others m.nsm_conn.network_service).0
          (handler_request-others os names composite passing order ep.service conn m.nsm_conn.id
            other)
  ]

  pub Holds-demux_close : Holds (demux_close (last_handlers os names composite order) x conn).1 m
  Holds-demux_close = elim (demux_routing (last_handlers os names composite order) x conn) [
    | inl (_, _, refused) ↦ rw refused held
    | inr (ep, found, _, _, others) ↦
        Holds-handled x (demux_close (last_handlers os names composite order) x conn).1 m
          conn.network_service ep ((last_handlers os names composite order).close ep.service conn).1
          held found (others m.nsm_conn.network_service).1
          (handler_close-others os names composite passing order ep.service conn m.nsm_conn.id
            other)
  ]

pub Holds-granted :
    (os : Os) (names : SdkNames) (x : NsmEndpointDemux NsmEndpoint) (m : NsmClientMetadata)
    (before : NsmEndpoint) (after : EndpointReg NsmEndpoint)
    → lookup m.nsm_conn.network_service x.endpoints ≡ some after
    → IsGranted os names before m.nsm_conn after.service
    → Holds x m
Holds-granted os names x m before after at granted = (
  after,
  record { index = granted.index; conn = m.nsm_conn },
  at,
  ap (λ (e : NsmEndpoint). lookup m.nsm_conn.id e.connections) granted.left
      ∙ lookup-inserted m.nsm_conn.id _ granted.rest.connections,
)

pub at_endpoint :
    (x : NsmEndpointDemux NsmEndpoint) (m : NsmClientMetadata) (ep : EndpointReg NsmEndpoint)
    → Holds x m
    → lookup m.nsm_conn.network_service x.endpoints ≡ some ep
    → (c : NsmConnection) × (lookup m.nsm_conn.id ep.service.connections ≡ some c)
at_endpoint x m ep (its, c, at, bound) found = (
  c,
  subst (λ (r : EndpointReg NsmEndpoint). lookup m.nsm_conn.id r.service.connections ≡ some c)
      (some-injective _ _ (sym at ∙ found)) bound,
)

-- The registration of the network service of the client is as it was.
Holds-same :
    (x x' : NsmEndpointDemux NsmEndpoint) (m : NsmClientMetadata)
    → Holds x m
    → lookup m.nsm_conn.network_service x'.endpoints ≡ lookup m.nsm_conn.network_service x.endpoints
    → Holds x' m
Holds-same x x' m (ep, c, at, bound) same = (ep, c, same ∙ at, bound)

module _ (names : SdkNames) (env : DemuxEnv) (cfg : NetworkServiceEndpoint)
    (d : NsmEndpointDescriptor) (m : NsmClientMetadata) (held : Holds d.ep_demux m) where
  pub Holds-offered :
      (from_env : NsConfiguration)
      → cfg.network_service ≢ m.nsm_conn.network_service
      → Holds (EndpointDescriptor.create names env from_env cfg d).1.ep_demux m
  Holds-offered from_env other =
      Holds-same d.ep_demux (EndpointDescriptor.create names env from_env cfg d).1.ep_demux m held
        (elim (create_registers names env from_env cfg d) [
          | inl (_, _, same) ↦ ap (lookup m.nsm_conn.network_service) same
          | inr (_, _, now) ↦ now m.nsm_conn.network_service ∙ rw (str_eq_ne _ _ other) refl
        ])

  pub Holds-cannot_offer :
      (from_env : NsConfiguration) (e : Error)
      → (EndpointDescriptor.create names env from_env cfg d).0 ≡ some e
      → Holds (EndpointDescriptor.create names env from_env cfg d).1.ep_demux m
  Holds-cannot_offer from_env e failed =
      Holds-same d.ep_demux (EndpointDescriptor.create names env from_env cfg d).1.ep_demux m held
        (elim (create_registers names env from_env cfg d) [
          | inl (_, _, same) ↦ ap (lookup m.nsm_conn.network_service) same
          | inr (_, made, _) ↦ absurd (some-ne-none e (sym failed ∙ made))
        ])

  pub Holds-withdrawn :
      (os : Os) (composite : Composite) (order : NsmEndpoint → List NsmConnection)
      → cfg.network_service ≢ m.nsm_conn.network_service
      → Holds (delete_nse (last_handlers os names composite order) env cfg d).1.ep_demux m
  unfolding delete_nse
  Holds-withdrawn os composite order other =
      Holds-same d.ep_demux
        (delete_nse (last_handlers os names composite order) env cfg d).1.ep_demux m held
        (ap (λ (x : NsmEndpointDemux NsmEndpoint). lookup m.nsm_conn.network_service x.endpoints)
            (ep_demux-publish delete env.on_delete cfg _)
          ∙ delete_endpoint-others (last_handlers os names composite order) env cfg.network_service
              d.ep_demux m.nsm_conn.network_service other)
