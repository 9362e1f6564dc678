-- ===== src/Demux/Serving.antt =====
-- What holds of the demultiplexer after any calls.
use cnf_nsm.Common.{
  ◌≡◌, sym, ◌∙◌, Bool, true, false, none, some, Bytes, arith, str_eq, if◌then◌else◌,
}
use mathlib.Core.Path.{subst}
use mathlib.Core.Option.{some-injective}
use cnf_nsm.Common.GoMap.{GoMap, lookup, insert, erase, lookup-insert, lookup-erase}
use cnf_nsm.External.{Connection, NsConfiguration}
use cnf_nsm.Demux.Endpoints.{
  add_endpoint_cases, delete_endpoint_cases, demux_request_cases, demux_close_cases,
}
use cnf_nsm.Demux.{
  Handlers, EndpointReg, DemuxEnv, NsmEndpointDemux, ensure_connected, register_endpoint,
  add_endpoint, delete_registered, delete_endpoint, demux_request, demux_close,
}

-- Handlers that keep a property of the service.
pub record Keeps {S : Type 0} (P : S → Type 0) (h : Handlers S) : Type 0 where
  pub request_keeps : (s : S) (conn : Connection) → P s → P (h.request s conn).1
  pub close_keeps : (s : S) (conn : Connection) → P s → P (h.close s conn).1
  pub close_connections_keeps : (s : S) → P s → P (h.close_connections s).1

abbrev pub AllServices : {S : Type 0} → (S → Type 0) → GoMap (EndpointReg S) → Type 0
AllServices {S} P m = (name : Bytes) (ep : EndpointReg S) → lookup name m ≡ some ep → P ep.service

-- The socket is served by one goroutine, from the time that the demultiplexer is connected.
pub record IsServing {S : Type 0} (x : NsmEndpointDemux S) : Type 0 where
  pub served : x.serving ≡ (if x.connected then 1 else 0)
  pub ready : x.connected ≡ true → (x.nsm_conn ≡ true) × (x.grpc_server ≡ true)

module _ {S : Type 0} where
  ensure_connected-IsServing :
      (env : DemuxEnv) (configuration : NsConfiguration) (x : NsmEndpointDemux S)
      → IsServing x
      → IsServing (ensure_connected env configuration x).1
  unfolding ensure_connected
  ensure_connected-IsServing env configuration x s = ground arith

  pub add_endpoint-IsServing :
      (env : DemuxEnv) (configuration : NsConfiguration) (service : S) (x : NsmEndpointDemux S)
      → IsServing x
      → IsServing (add_endpoint env configuration service x).1
  unfolding add_endpoint register_endpoint
  add_endpoint-IsServing env configuration service x s =
      let kept = ensure_connected-IsServing env configuration x s in ground arith

  pub delete_endpoint-IsServing :
      (h : Handlers S) (env : DemuxEnv) (nse_name : Bytes) (x : NsmEndpointDemux S)
      → IsServing x
      → IsServing (delete_endpoint h env nse_name x).1
  unfolding delete_endpoint delete_registered
  delete_endpoint-IsServing h env nse_name x s = ground arith

  pub demux_request-IsServing :
      (h : Handlers S) (x : NsmEndpointDemux S) (conn : Connection)
      → IsServing x
      → IsServing (demux_request h x conn).1
  unfolding demux_request
  demux_request-IsServing h x conn s = ground arith

  pub demux_close-IsServing :
      (h : Handlers S) (x : NsmEndpointDemux S) (conn : Connection)
      → IsServing x
      → IsServing (demux_close h x conn).1
  unfolding demux_close
  demux_close-IsServing h x conn s = ground arith

module _ {S : Type 0} (P : S → Type 0) where
  AllServices-insert :
      (k : Bytes) (ep : EndpointReg S) (m : GoMap (EndpointReg S))
      → P ep.service
      → AllServices P m
      → AllServices P (insert k ep m)
  AllServices-insert k ep m new old name found e =
      choose (str_eq k name) (sym (lookup-insert k name ep m) ∙ e)
    where
      choose : (b : Bool) → (if b then some ep else lookup name m) ≡ some found → P found.service
      choose true h = subst (λ (r : EndpointReg S). P r.service) (some-injective _ _ h) new
      choose false h = old name found h

  AllServices-erase :
      (k : Bytes) (m : GoMap (EndpointReg S)) → AllServices P m → AllServices P (erase k m)
  AllServices-erase k m old name found e = choose (str_eq k name) (sym (lookup-erase k name m) ∙ e)
    where
      choose : (b : Bool) → (if b then none else lookup name m) ≡ some found → P found.service
      choose true h = cc
      choose false h = old name found h

  pub add_endpoint-AllServices :
      (env : DemuxEnv) (configuration : NsConfiguration) (service : S) (x : NsmEndpointDemux S)
      → P service
      → AllServices P x.endpoints
      → AllServices P (add_endpoint env configuration service x).1.endpoints
  add_endpoint-AllServices env configuration service x new old =
      add_endpoint_cases (AllServices P) x old env configuration service λ ep_name.
        AllServices-insert configuration.advertise_nse_name
          (record { ep_name = ep_name; service = service }) x.endpoints new old

  module _ (h : Handlers S) (keeps : Keeps P h) where
    pub delete_endpoint-AllServices :
        (env : DemuxEnv) (nse_name : Bytes) (x : NsmEndpointDemux S)
        → AllServices P x.endpoints
        → AllServices P (delete_endpoint h env nse_name x).1.endpoints
    delete_endpoint-AllServices env nse_name x old =
        delete_endpoint_cases (AllServices P) x old h env nse_name closed
          (λ ep found. AllServices-erase nse_name _ (closed ep found))
      where
        closed :
            (ep : EndpointReg S)
            → lookup nse_name x.endpoints ≡ some ep
            → AllServices P (
                insert nse_name
                  (record ep { service = (h.close_connections ep.service).1 })
                  x.endpoints)
        closed ep found =
            AllServices-insert nse_name (record ep { service = (h.close_connections ep.service).1 })
              x.endpoints (keeps.close_connections_keeps ep.service (old nse_name ep found)) old

    pub demux_request-AllServices :
        (x : NsmEndpointDemux S) (conn : Connection)
        → AllServices P x.endpoints
        → AllServices P (demux_request h x conn).1.endpoints
    demux_request-AllServices x conn old =
        demux_request_cases (AllServices P) x old h conn λ ep found.
          AllServices-insert conn.network_service
            (record ep { service = (h.request ep.service conn).1 }) x.endpoints
            (keeps.request_keeps ep.service conn (old conn.network_service ep found)) old

    pub demux_close-AllServices :
        (x : NsmEndpointDemux S) (conn : Connection)
        → AllServices P x.endpoints
        → AllServices P (demux_close h x conn).1.endpoints
    demux_close-AllServices x conn old = demux_close_cases (AllServices P) x old h conn λ ep found.
        AllServices-insert conn.network_service
          (record ep { service = (h.close ep.service conn).1 }) x.endpoints
          (keeps.close_keeps ep.service conn (old conn.network_service ep found)) old
