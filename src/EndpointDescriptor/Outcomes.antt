-- ===== src/EndpointDescriptor/Outcomes.antt =====
-- What `Create` and `Delete` of the descriptor report, against what they did.
use cnf_nsm.Common.{
  ◌≡◌, ◌⊎◌, refl, none, some, Bytes, arith, str_eq, str_eq_refl, inl, inr, if◌then◌else◌,
}
use cnf_nsm.Common.GoMap.{lookup}
use cnf_nsm.Proto.{NetworkServiceEndpoint}
use cnf_nsm.Errors.{Error}
use cnf_nsm.External.{SdkNames, NsConfiguration}
use cnf_nsm.Endpoint.{NsmEndpoint, new_nsm_endpoint}
use cnf_nsm.Demux.{Handlers, EndpointReg, DemuxEnv, delete_endpoint}
use cnf_nsm.Demux.Registering.{endpoints-add_endpoint, endpoints-delete_endpoint}
use cnf_nsm.EndpointDescriptor.{
  NsmEndpointDescriptor, publish, create, delete_nse, endpoint_configuration,
}

-- A `Create` without an error has registered, under the network service of the configuration, an
-- endpoint that has no connection, and left every other registration as it was; with an error every
-- registration is as it was.
pub create_registers :
    (names : SdkNames) (env : DemuxEnv) (from_env : NsConfiguration) (cfg : NetworkServiceEndpoint)
    (d : NsmEndpointDescriptor)
    → ((e : Error) × ((create names env from_env cfg d).0 ≡ some e)
        × ((create names env from_env cfg d).1.ep_demux.endpoints ≡ d.ep_demux.endpoints))
      ⊎ ((ep_name : Bytes) × ((create names env from_env cfg d).0 ≡ none)
          × ((name : Bytes)
              → lookup name (create names env from_env cfg d).1.ep_demux.endpoints ≡ (
                  if str_eq cfg.network_service name
                  then some (record { ep_name = ep_name; service = new_nsm_endpoint cfg })
                  else lookup name d.ep_demux.endpoints)))
unfolding create publish endpoint_configuration
create_registers names env from_env cfg d =
    elim (endpoints-add_endpoint env (endpoint_configuration names from_env cfg)
      (new_nsm_endpoint cfg) d.ep_demux) [
        | inl (e, failed, kept) ↦ inl (e, ground arith, ground arith)
        | inr (ep_name, made, _, found) ↦
            inr (ep_name, ground arith, λ name. ground (arith, found name))
      ]

-- `Delete` always reports success. Where the demultiplexer could not delete the endpoint, the endpoint
-- is still registered for its network service all the same, and requests go to it.
pub delete_nse_reports_success :
    (h : Handlers NsmEndpoint) (env : DemuxEnv) (cfg : NetworkServiceEndpoint)
    (d : NsmEndpointDescriptor) (ep : EndpointReg NsmEndpoint) (e : Error)
    → lookup cfg.network_service d.ep_demux.endpoints ≡ some ep
    → (delete_endpoint h env cfg.network_service d.ep_demux).0 ≡ some e
    → ((delete_nse h env cfg d).0 ≡ none)
      × (lookup cfg.network_service (delete_nse h env cfg d).1.ep_demux.endpoints
          ≡ some (record ep { service = (h.close_connections ep.service).1 }))
unfolding delete_nse publish
delete_nse_reports_success h env cfg d ep e found failed =
    elim (endpoints-delete_endpoint h env cfg.network_service d.ep_demux ep found) [
      | inl (done, _, _, _, _) ↦ absurd (ground arith)
      | inr (x, _, still) ↦
          (refl, ground (arith, still cfg.network_service, str_eq_refl cfg.network_service))
    ]
