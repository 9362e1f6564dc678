-- ===== src/EndpointDescriptor/Recreating.antt =====
-- An endpoint that could not be deleted, and is created once more.
use cnf_nsm.Common.{◌≡◌, ◌∷◌, refl, none, some, Bytes, arith, str_eq_refl, inl, inr}
use cnf_nsm.Common.GoMap.{lookup}
use cnf_nsm.Proto.{NetworkServiceEndpoint}
use cnf_nsm.Errors.{Error}
use cnf_nsm.External.{SdkNames, NsConfiguration}
use cnf_nsm.Endpoint.{NsmEndpoint, new_nsm_endpoint}
use cnf_nsm.Demux.{
  Handlers, EndpointReg, DemuxEnv, NsmEndpointDemux, register_nse, registration, ensure_connected,
  register_endpoint, add_endpoint, put_service, delete_registered, delete_endpoint,
}
use cnf_nsm.EndpointDescriptor.{
  NsmEndpointDescriptor, publish, create, delete_nse, endpoint_configuration,
}
use cnf_nsm.EndpointDescriptor.Outcomes.{create_registers}

module _ {S : Type 0} where
  registry-ensure_connected :
      (env : DemuxEnv) (configuration : NsConfiguration) (x : NsmEndpointDemux S)
      → (ensure_connected env configuration x).1.registry ≡ x.registry
  unfolding ensure_connected
  registry-ensure_connected env configuration x = ground arith

  registry-add_endpoint :
      (env : DemuxEnv) (configuration : NsConfiguration) (service : S) (x : NsmEndpointDemux S)
      → (add_endpoint env configuration service x).0 ≡ none
      → (add_endpoint env configuration service x).1.registry
        ≡ register_nse (registration env configuration) ∷ x.registry
  unfolding add_endpoint register_endpoint
  registry-add_endpoint env configuration service x made =
      ground (arith, registry-ensure_connected env configuration x)

  registry-delete_endpoint :
      (h : Handlers S) (env : DemuxEnv) (nse_name : Bytes) (x : NsmEndpointDemux S)
      (ep : EndpointReg S) (e : Error)
      → lookup nse_name x.endpoints ≡ some ep
      → (h.close_connections ep.service).0 ≡ some e
      → (delete_endpoint h env nse_name x).1.registry ≡ x.registry
  unfolding delete_endpoint delete_registered put_service
  registry-delete_endpoint h env nse_name x ep e found failed = ground arith

registry-create :
    (names : SdkNames) (env : DemuxEnv) (from_env : NsConfiguration) (cfg : NetworkServiceEndpoint)
    (d : NsmEndpointDescriptor)
    → (create names env from_env cfg d).0 ≡ none
    → (create names env from_env cfg d).1.ep_demux.registry
      ≡ register_nse (registration env (endpoint_configuration names from_env cfg))
        ∷ d.ep_demux.registry
unfolding create publish
registry-create names env from_env cfg d made = ground (
  arith,
  registry-add_endpoint env (endpoint_configuration names from_env cfg) (new_nsm_endpoint cfg)
      d.ep_demux,
)

registry-delete_nse :
    (h : Handlers NsmEndpoint) (env : DemuxEnv) (cfg : NetworkServiceEndpoint)
    (d : NsmEndpointDescriptor) (ep : EndpointReg NsmEndpoint) (e : Error)
    → lookup cfg.network_service d.ep_demux.endpoints ≡ some ep
    → (h.close_connections ep.service).0 ≡ some e
    → (delete_nse h env cfg d).1.ep_demux.registry ≡ d.ep_demux.registry
unfolding delete_nse publish
registry-delete_nse h env cfg d ep e found failed =
    ground (arith, registry-delete_endpoint h env cfg.network_service d.ep_demux ep e found failed)

-- Where the connections of an endpoint cannot be closed, a `Delete` of it reports success; then a
-- `Create` for its network service without an error puts an endpoint without any connection and without
-- any interface in its place. The registry was never asked to remove the first: all that it was asked
-- for is to register the second. The connections that the first was left with are known to none.
pub delete_nse-create :
    (h : Handlers NsmEndpoint) (names : SdkNames) (env env' : DemuxEnv) (from_env : NsConfiguration)
    (cfg cfg' : NetworkServiceEndpoint) (d : NsmEndpointDescriptor) (ep : EndpointReg NsmEndpoint)
    (e : Error)
    → lookup cfg.network_service d.ep_demux.endpoints ≡ some ep
    → (h.close_connections ep.service).0 ≡ some e
    → cfg'.network_service ≡ cfg.network_service
    → (create names env' from_env cfg' (delete_nse h env cfg d).1).0 ≡ none
    → ((delete_nse h env cfg d).0 ≡ none)
      × (ep_name : Bytes) × (lookup cfg.network_service
            (create names env' from_env cfg' (delete_nse h env cfg d).1).1.ep_demux.endpoints
          ≡ some (record { ep_name = ep_name; service = new_nsm_endpoint cfg' }))
      × ((create names env' from_env cfg' (delete_nse h env cfg d).1).1.ep_demux.registry
          ≡ register_nse (registration env' (endpoint_configuration names from_env cfg'))
            ∷ d.ep_demux.registry)
unfolding delete_nse
delete_nse-create h names env env' from_env cfg cfg' d ep e found failed same made =
    let kept = registry-delete_nse h env cfg d ep e found failed in
    let asked = registry-create names env' from_env cfg' (delete_nse h env cfg d).1 made in
    elim (create_registers names env' from_env cfg' (delete_nse h env cfg d).1) [
      | inl (x, refused, _) ↦ absurd (ground arith)
      | inr (ep_name, _, registered) ↦ (
        refl,
        ep_name,
        ground (arith, registered cfg.network_service, str_eq_refl cfg.network_service),
        ground arith,
      )
    ]
