-- ===== src/Demux/Registering.antt =====
-- Which endpoints are registered after an endpoint was added or deleted.
use cnf_nsm.Common.{
  refl, ◌∙◌, str_eq_ne, ◌≢◌, ◌≡◌, ◌⊎◌, ◌∷◌, none, some, Bytes, arith, Option-cases, inl, inr,
  str_eq, if◌then◌else◌,
}
use cnf_nsm.Common.GoMap.{lookup, insert, lookup-insert, lookup-erase}
use cnf_nsm.Errors.{Error, ok, no_such_endpoint}
use cnf_nsm.External.{NsConfiguration}
use cnf_nsm.Errors.{Result-cases}
use cnf_nsm.Demux.{
  Handlers, EndpointReg, remove_nse, DemuxEnv, NsmEndpointDemux, registration, ensure_connected,
  register_endpoint, add_endpoint, put_service, delete_registered, delete_endpoint,
}

module _ {S : Type 0} where
  pub endpoints-ensure_connected :
      (env : DemuxEnv) (configuration : NsConfiguration) (x : NsmEndpointDemux S)
      → (ensure_connected env configuration x).1.endpoints ≡ x.endpoints
  unfolding ensure_connected
  endpoints-ensure_connected env configuration x = ground arith

  -- `AddEndpoint` without an error has registered the endpoint under the name that the registry gave,
  -- and left every other registration as it was; with an error it left all of them as they were.
  pub endpoints-add_endpoint :
      (env : DemuxEnv) (configuration : NsConfiguration) (service : S) (x : NsmEndpointDemux S)
      → ((e : Error) × ((add_endpoint env configuration service x).0 ≡ some e)
          × ((add_endpoint env configuration service x).1.endpoints ≡ x.endpoints))
        ⊎ ((ep_name : Bytes) × ((add_endpoint env configuration service x).0 ≡ none)
            × (env.on_register (registration env configuration) ≡ ok ep_name)
            × ((name : Bytes)
                → lookup name (add_endpoint env configuration service x).1.endpoints ≡ (
                    if str_eq configuration.advertise_nse_name name
                    then some (record { ep_name = ep_name; service = service })
                    else lookup name x.endpoints)))
  unfolding add_endpoint register_endpoint
  endpoints-add_endpoint env configuration service x =
      let kept = endpoints-ensure_connected env configuration x in
      elim (Option-cases (ensure_connected env configuration x).0) [
        | inr (e, failed) ↦ inl (e, ground arith, ground arith)
        | inl connected ↦ elim (Result-cases (env.on_register (registration env configuration))) [
          | inl (e, refused) ↦ inl (e, ground arith, ground arith)
          | inr (ep_name, registered) ↦ inr (
            ep_name,
            ground arith,
            registered,
            λ name. ground (
              arith,
              lookup-insert configuration.advertise_nse_name name
                  (record { ep_name = ep_name; service = service }) x.endpoints,
            ),
          )
        ]
      ]

  -- `DeleteEndpoint` without an error has closed the connections of the endpoint and had it removed from
  -- the registry, and the endpoint is not registered any more; with an error it is still registered,
  -- under the same name. Every other registration is the same.
  pub endpoints-delete_endpoint :
      (h : Handlers S) (env : DemuxEnv) (nse_name : Bytes) (x : NsmEndpointDemux S)
      (ep : EndpointReg S)
      → lookup nse_name x.endpoints ≡ some ep
      → (((delete_endpoint h env nse_name x).0 ≡ none)
          × ((h.close_connections ep.service).0 ≡ none)
          × (env.on_remove ep.ep_name ≡ none)
          × ((delete_endpoint h env nse_name x).1.registry ≡ remove_nse ep.ep_name ∷ x.registry)
          × ((name : Bytes)
              → lookup name (delete_endpoint h env nse_name x).1.endpoints
                ≡ (if str_eq nse_name name then none else lookup name x.endpoints)))
        ⊎ ((e : Error) × ((delete_endpoint h env nse_name x).0 ≡ some e)
            × ((name : Bytes)
                → lookup name (delete_endpoint h env nse_name x).1.endpoints ≡ (
                    if str_eq nse_name name
                    then some (record ep { service = (h.close_connections ep.service).1 })
                    else lookup name x.endpoints)))
  unfolding delete_endpoint delete_registered put_service
  endpoints-delete_endpoint h env nse_name x ep found =
      elim (Option-cases (h.close_connections ep.service).0) [
        | inr (e, failed) ↦ inr (e, ground arith, λ name. ground (arith, put nse_name name))
        | inl closed ↦ elim (Option-cases (env.on_remove ep.ep_name)) [
          | inr (e, refused) ↦ inr (e, ground arith, λ name. ground (arith, put nse_name name))
          | inl removed ↦ inl (
            ground arith,
            closed,
            removed,
            ground arith,
            λ name. ground (
              arith,
              put nse_name name,
              lookup-erase nse_name name (
                  insert nse_name (record ep { service = (h.close_connections ep.service).1 })
                    x.endpoints),
            ),
          )
        ]
      ]
    where
      put :
          (k name : Bytes)
          → lookup name
              (insert k (record ep { service = (h.close_connections ep.service).1 }) x.endpoints)
            ≡ (if str_eq k name
                then some (record ep { service = (h.close_connections ep.service).1 })
                else lookup name x.endpoints)
      put k name = lookup-insert k name _ x.endpoints

  pub delete_endpoint-absent :
      (h : Handlers S) (env : DemuxEnv) (nse_name : Bytes) (x : NsmEndpointDemux S)
      → lookup nse_name x.endpoints ≡ none
      → (e : Error) × (delete_endpoint h env nse_name x ≡ (some e, x))
  unfolding delete_endpoint
  delete_endpoint-absent h env nse_name x absent = (no_such_endpoint nse_name, ground arith)

  -- The registrations of other network services are left alone.
  pub delete_endpoint-others :
      (h : Handlers S) (env : DemuxEnv) (nse_name : Bytes) (x : NsmEndpointDemux S) (name : Bytes)
      → nse_name ≢ name
      → lookup name (delete_endpoint h env nse_name x).1.endpoints ≡ lookup name x.endpoints
  delete_endpoint-others h env nse_name x name other =
      let differs = str_eq_ne nse_name name other in
      elim (Option-cases (lookup nse_name x.endpoints)) [
        | inl absent ↦
            let (e, refused) = delete_endpoint-absent h env nse_name x absent in rw refused refl
        | inr (ep, found) ↦ elim (endpoints-delete_endpoint h env nse_name x ep found) [
          | inl (_, _, _, _, now) ↦ now name ∙ rw differs refl
          | inr (_, _, now) ↦ now name ∙ rw differs refl
        ]
      ]
