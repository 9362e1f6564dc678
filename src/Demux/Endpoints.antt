-- ===== src/Demux/Endpoints.antt =====
-- What becomes of the endpoints of the demultiplexer in each call.
use cnf_nsm.Common.{◌≡◌, some, Bytes, Option-cases, inl, inr}
use cnf_nsm.Common.GoMap.{GoMap, lookup, insert, erase}
use cnf_nsm.External.{Connection, NsConfiguration}
use cnf_nsm.Errors.{Result-cases}
use cnf_nsm.Demux.Registering.{endpoints-ensure_connected}
use cnf_nsm.Demux.{
  Handlers, EndpointReg, DemuxEnv, NsmEndpointDemux, ensure_connected, registration,
  register_endpoint, store_reg, unregister, add_endpoint, put_service, delete_registered,
  delete_endpoint, demux_request, demux_close,
}

module _ {ℓ} {S : Type 0} (P : GoMap (EndpointReg S) → Type ℓ) (x : NsmEndpointDemux S)
    (same : P x.endpoints) where
  pub add_endpoint_cases :
      (env : DemuxEnv) (configuration : NsConfiguration) (service : S)
      → ((ep_name : Bytes)
          → P (
              insert configuration.advertise_nse_name
                (record { ep_name = ep_name; service = service })
                x.endpoints))
      → P (add_endpoint env configuration service x).1.endpoints
  unfolding add_endpoint register_endpoint
  add_endpoint_cases env configuration service new =
      let connected_endpoints = endpoints-ensure_connected env configuration x in
      elim (Option-cases (ensure_connected env configuration x).0) [
        | inr (e, failed) ↦ rw (failed, add_endpoint) (rw connected_endpoints same)
        | inl connected ↦ elim (Result-cases (env.on_register (registration env configuration))) [
          | inl (e, refused) ↦
              rw (connected, add_endpoint) (rw (refused, store_reg) (rw connected_endpoints same))
          | inr (ep_name, registered) ↦
              rw (connected, add_endpoint)
                (rw (registered, store_reg) (rw connected_endpoints (new ep_name)))
        ]
      ]

  module _ (h : Handlers S) where
    pub delete_endpoint_cases :
        (env : DemuxEnv) (nse_name : Bytes)
        → ((ep : EndpointReg S)
            → lookup nse_name x.endpoints ≡ some ep
            → P (
                insert nse_name
                  (record ep { service = (h.close_connections ep.service).1 })
                  x.endpoints))
        → ((ep : EndpointReg S)
            → lookup nse_name x.endpoints ≡ some ep
            → P (
                erase nse_name (
                  insert nse_name
                    (record ep { service = (h.close_connections ep.service).1 })
                    x.endpoints)))
        → P (delete_endpoint h env nse_name x).1.endpoints
    unfolding delete_endpoint delete_registered put_service
    delete_endpoint_cases env nse_name kept gone =
        elim (Option-cases (lookup nse_name x.endpoints)) [
          | inl absent ↦ rw (absent, delete_endpoint) same
          | inr (ep, found) ↦
              rw (found, delete_endpoint)
                (elim (Option-cases (h.close_connections ep.service).0) [
                  | inr (e, failed) ↦ rw (failed, delete_registered) (kept ep found)
                  | inl closed ↦ elim (Option-cases (env.on_remove ep.ep_name)) [
                    | inr (e, refused) ↦
                        rw (closed, delete_registered) (rw (refused, unregister) (kept ep found))
                    | inl removed ↦
                        rw (closed, delete_registered) (rw (removed, unregister) (gone ep found))
                  ]
                ])
        ]

    module _ (conn : Connection) where
      pub demux_request_cases :
          ((ep : EndpointReg S)
            → lookup conn.network_service x.endpoints ≡ some ep
            → P (
                insert conn.network_service
                  (record ep { service = (h.request ep.service conn).1 })
                  x.endpoints))
          → P (demux_request h x conn).1.endpoints
      unfolding demux_request put_service
      demux_request_cases kept = elim (Option-cases (lookup conn.network_service x.endpoints)) [
        | inl absent ↦ rw (absent, demux_request) same
        | inr (ep, found) ↦ rw (found, demux_request) (kept ep found)
      ]

      pub demux_close_cases :
          ((ep : EndpointReg S)
            → lookup conn.network_service x.endpoints ≡ some ep
            → P (
                insert conn.network_service
                  (record ep { service = (h.close ep.service conn).1 })
                  x.endpoints))
          → P (demux_close h x conn).1.endpoints
      unfolding demux_close put_service
      demux_close_cases kept = elim (Option-cases (lookup conn.network_service x.endpoints)) [
        | inl absent ↦ rw (absent, demux_close) same
        | inr (ep, found) ↦ rw (found, demux_close) (kept ep found)
      ]
