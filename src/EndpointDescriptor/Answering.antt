-- ===== src/EndpointDescriptor/Answering.antt =====
-- Each call of the agent's endpoints, with its answer, against what the agent promises of it.
use mathlib.Core.Path.{subst}
use cnf_nsm.Common.{◌≡◌, refl, List, Option, none, some, Bytes, inl, inr, Option-cases}
use cnf_nsm.Common.GoMap.{lookup}
use cnf_nsm.Proto.{NetworkServiceEndpoint}
use cnf_nsm.External.{Os, SdkNames, Connection, NsConfiguration}
use cnf_nsm.Endpoint.{
  new_nsm_endpoint, NsmConnection, NsmEndpoint, Next, request, close, close_connections,
}
use cnf_nsm.Endpoint.Invariant.{IsValid}
use cnf_nsm.Endpoint.Kept.{cfg-request, cfg-close, cfg-close_all}
use cnf_nsm.Endpoint.Allocation.{
  request_answered, close_answered, close_all_answered, Follows, refuses, cannot_close, indexes,
}
use cnf_nsm.Endpoint.Refinement.{ids, request-Follows, close-Follows, close_connections-Follows}
use cnf_nsm.Demux.{
  Handlers, DemuxEnv, NsmEndpointDemux, delete_endpoint, demux_request, demux_close,
}
use cnf_nsm.Demux.Routing.{demux_routing, handled}
use cnf_nsm.Demux.Registering.{endpoints-delete_endpoint, delete_endpoint-absent}
use cnf_nsm.Demux.Serving.{AllServices}
use cnf_nsm.EndpointDescriptor.{Composite, NsmEndpointDescriptor, endpoint_handlers, create}
use cnf_nsm.EndpointDescriptor.Outcomes.{create_registers}
use cnf_nsm.EndpointDescriptor.Passing.{IsPassing}
use cnf_nsm.EndpointDescriptor.Registry.{
  offer_answered, withdraw_answered, service_answered, RegistryFollows, cannot_offer, offers,
  withdraws, cannot_withdraw, nothing_to_withdraw, serves, nothing_serves, viewed, viewed_found,
  viewed_absent, viewed_replaced,
}

module _ (names : SdkNames) (composite : Composite) (passing : IsPassing composite) (os : Os)
    (next : Option Next) (order : NsmEndpoint → List NsmConnection) where
  -- The handlers of an endpoint, behind the composite.
  abbrev passed : Handlers NsmEndpoint
  passed = endpoint_handlers os names composite next order

  handler_request :
      (e : NsmEndpoint) (conn : Connection)
      → IsValid e
      → ((passed.request e conn).1.cfg ≡ e.cfg)
        × Follows e.cfg
            (indexes e.connections)
            (request_answered conn.id (passed.request e conn).0.1)
            (indexes (passed.request e conn).1.connections)
  unfolding endpoint_handlers
  handler_request e conn v = elim (passing.request_passes (request os names next) e conn) [
    | inl (x, refused) ↦ rw refused (refl, refuses conn.id x)
    | inr reached ↦ rw reached (
      cfg-request os names next e (passing.prepare conn),
      subst
          (λ (k : Bytes).
            Follows e.cfg (indexes e.connections)
              (request_answered k (request os names next e (passing.prepare conn)).0.1)
              (indexes (request os names next e (passing.prepare conn)).1.connections))
          (passing.same_id conn) (request-Follows os names next e (passing.prepare conn) v),
    )
  ]

  handler_close :
      (e : NsmEndpoint) (conn : Connection)
      → ((passed.close e conn).1.cfg ≡ e.cfg)
        × Follows e.cfg
            (indexes e.connections)
            (close_answered conn.id (passed.close e conn).0)
            (indexes (passed.close e conn).1.connections)
  unfolding endpoint_handlers
  handler_close e conn = elim (passing.close_passes (close os names next) e conn) [
    | inl (x, refused) ↦ rw refused (refl, cannot_close conn.id x)
    | inr reached ↦ rw reached (cfg-close os names next e conn, close-Follows os names next e conn)
  ]

  handler_close_all :
      (e : NsmEndpoint)
      → ((passed.close_connections e).1.cfg ≡ e.cfg)
        × Follows e.cfg
            (indexes e.connections)
            (close_all_answered (ids (order e)) (passed.close_connections e).0)
            (indexes (passed.close_connections e).1.connections)
  unfolding endpoint_handlers close_connections
  handler_close_all e = (
    cfg-close_all os names e (order e),
    unfold close_connections in close_connections-Follows os names e (order e),
  )

  module _ (x : NsmEndpointDemux NsmEndpoint) (valid : AllServices IsValid x.endpoints)
      (conn : Connection) where
    pub demux_request_refines :
        RegistryFollows
          (viewed x.endpoints)
          (service_answered conn.network_service
            (request_answered conn.id (demux_request passed x conn).0.1))
          (viewed (demux_request passed x conn).1.endpoints)
    demux_request_refines = elim (demux_routing passed x conn) [
      | inl (absent, refused, _) ↦
          rw refused (nothing_serves conn.network_service _ (viewed_absent _ _ absent) refl)
      | inr (ep, found, answer, _, here) ↦
          let (same, follows) =
            handler_request ep.service conn (valid conn.network_service ep found) in
          rw
            (
              answer,
              viewed_replaced conn.network_service
                  (some (handled ep (passed.request ep.service conn).1)) x.endpoints _
                  (λ name. (here name).0),
              same,
            )
            (serves conn.network_service _ ep.service.cfg (indexes ep.service.connections) _
              (viewed_found _ _ ep found) follows)
    ]

    pub demux_close_refines :
        RegistryFollows
          (viewed x.endpoints)
          (service_answered conn.network_service
            (close_answered conn.id (demux_close passed x conn).0))
          (viewed (demux_close passed x conn).1.endpoints)
    demux_close_refines = elim (demux_routing passed x conn) [
      | inl (absent, _, refused) ↦
          rw refused (nothing_serves conn.network_service _ (viewed_absent _ _ absent) refl)
      | inr (ep, found, _, answer, here) ↦
          let (same, follows) = handler_close ep.service conn in
          rw
            (
              answer,
              viewed_replaced conn.network_service
                  (some (handled ep (passed.close ep.service conn).1)) x.endpoints _
                  (λ name. (here name).1),
              same,
            )
            (serves conn.network_service _ ep.service.cfg (indexes ep.service.connections) _
              (viewed_found _ _ ep found) follows)
    ]

  pub delete_endpoint_refines :
      (x : NsmEndpointDemux NsmEndpoint) (env : DemuxEnv) (name : Bytes)
      → RegistryFollows
          (viewed x.endpoints)
          (withdraw_answered name (delete_endpoint passed env name x).0)
          (viewed (delete_endpoint passed env name x).1.endpoints)
  delete_endpoint_refines x env name = elim (Option-cases (lookup name x.endpoints)) [
    | inl absent ↦
        let (e, refused) = delete_endpoint-absent passed env name x absent in
        rw refused (nothing_to_withdraw name e (viewed_absent _ _ absent))
    | inr (ep, found) ↦ elim (endpoints-delete_endpoint passed env name x ep found) [
      | inl (done, _, _, _, here) ↦
          rw (done, viewed_replaced name none x.endpoints _ here)
            (withdraws name _ (viewed_found _ _ ep found))
      | inr (e, failed, here) ↦
          let (same, follows) = handler_close_all ep.service in
          rw
            (
              failed,
              viewed_replaced name (some (handled ep (passed.close_connections ep.service).1))
                  x.endpoints _ here,
              same,
            )
            (cannot_withdraw name e ep.service.cfg (indexes ep.service.connections) _
              (ids (order ep.service)) _ (viewed_found _ _ ep found) follows)
    ]
  ]

pub create_refines :
    (names : SdkNames) (env : DemuxEnv) (from_env : NsConfiguration) (cfg : NetworkServiceEndpoint)
    (d : NsmEndpointDescriptor)
    → RegistryFollows
        (viewed d.ep_demux.endpoints)
        (offer_answered cfg (create names env from_env cfg d).0)
        (viewed (create names env from_env cfg d).1.ep_demux.endpoints)
unfolding new_nsm_endpoint indexes lookup
create_refines names env from_env cfg d = elim (create_registers names env from_env cfg d) [
  | inl (e, failed, same) ↦ rw (failed, same) (cannot_offer cfg e)
  | inr (ep_name, made, here) ↦
      rw
        (
          made,
          viewed_replaced cfg.network_service
              (some (record { ep_name = ep_name; service = new_nsm_endpoint cfg }))
              d.ep_demux.endpoints (create names env from_env cfg d).1.ep_demux.endpoints here,
        )
        (offers cfg)
]
