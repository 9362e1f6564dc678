-- ===== src/Tests/Demuxes.antt =====
-- Witnesses for the demultiplexer.
use cnf_nsm.Common.{◌≡◌, ◌⊎◌, refl, ◌∷◌, none, some, codes, Bytes, str_eq, if◌then◌else◌}
use cnf_nsm.Common.GoMap.{lookup}
use cnf_nsm.Errors.{no_such_service, Error, ok}
use cnf_nsm.Endpoint.{NsmEndpoint}
use cnf_nsm.Demux.{
  EndpointReg, registration, add_endpoint, delete_endpoint, demux_request, demux_close, remove_nse,
}
use cnf_nsm.Demux.Routing.{handled, demux_routing}
use cnf_nsm.Demux.Registering.{endpoints-add_endpoint, endpoints-delete_endpoint}
use cnf_nsm.Tests.Samples.{conn_a, env_config, sample_env, sample_handlers, sample_demux, open_reg}

demux_routing_example :
    ((lookup conn_a.network_service sample_demux.endpoints ≡ none)
      × (demux_request sample_handlers sample_demux conn_a
          ≡ ((conn_a, some (no_such_service conn_a.network_service)), sample_demux))
      × (demux_close sample_handlers sample_demux conn_a
          ≡ (some (no_such_service conn_a.network_service), sample_demux)))
    ⊎ ((ep : EndpointReg NsmEndpoint) × (lookup conn_a.network_service sample_demux.endpoints
          ≡ some ep)
        × ((demux_request sample_handlers sample_demux conn_a).0
            ≡ (sample_handlers.request ep.service conn_a).0)
        × ((demux_close sample_handlers sample_demux conn_a).0
            ≡ (sample_handlers.close ep.service conn_a).0)
        × ((name : Bytes)
            → (lookup name (demux_request sample_handlers sample_demux conn_a).1.endpoints ≡ (
                if str_eq conn_a.network_service name
                then some (handled ep (sample_handlers.request ep.service conn_a).1)
                else lookup name sample_demux.endpoints))
              × (lookup name (demux_close sample_handlers sample_demux conn_a).1.endpoints ≡ (
                  if str_eq conn_a.network_service name
                  then some (handled ep (sample_handlers.close ep.service conn_a).1)
                  else lookup name sample_demux.endpoints))))
demux_routing_example = demux_routing sample_handlers sample_demux conn_a

endpoints-add_endpoint_example :
    ((e : Error) × ((add_endpoint sample_env env_config (open_reg.service) sample_demux).0 ≡ some e)
      × ((add_endpoint sample_env env_config (open_reg.service) sample_demux).1.endpoints
          ≡ sample_demux.endpoints))
    ⊎ ((ep_name : Bytes) × ((add_endpoint sample_env env_config (open_reg.service) sample_demux).0
          ≡ none)
        × (sample_env.on_register (registration sample_env env_config) ≡ ok ep_name)
        × ((name : Bytes)
            → lookup name
                (add_endpoint sample_env env_config (open_reg.service) sample_demux).1.endpoints
              ≡ (if str_eq env_config.advertise_nse_name name
                  then some (record { ep_name = ep_name; service = open_reg.service })
                  else lookup name sample_demux.endpoints)))
endpoints-add_endpoint_example =
    endpoints-add_endpoint sample_env env_config (open_reg.service) sample_demux

endpoints-delete_endpoint_example :
    (((delete_endpoint sample_handlers sample_env (codes "fw") sample_demux).0 ≡ none)
      × ((sample_handlers.close_connections open_reg.service).0 ≡ none)
      × (sample_env.on_remove open_reg.ep_name ≡ none)
      × ((delete_endpoint sample_handlers sample_env (codes "fw") sample_demux).1.registry
          ≡ remove_nse open_reg.ep_name ∷ sample_demux.registry)
      × ((name : Bytes)
          → lookup name
              (delete_endpoint sample_handlers sample_env (codes "fw") sample_demux).1.endpoints
            ≡ (if str_eq (codes "fw") name then none else lookup name sample_demux.endpoints)))
    ⊎ ((e : Error) × ((delete_endpoint sample_handlers sample_env (codes "fw") sample_demux).0
          ≡ some e)
        × ((name : Bytes)
            → lookup name
                (delete_endpoint sample_handlers sample_env (codes "fw") sample_demux).1.endpoints
              ≡ (if str_eq (codes "fw") name
                  then some (record open_reg {
                    service = (sample_handlers.close_connections open_reg.service).1;
                  })
                  else lookup name sample_demux.endpoints)))
unfolding lookup str_eq
endpoints-delete_endpoint_example =
    endpoints-delete_endpoint sample_handlers sample_env (codes "fw") sample_demux open_reg refl
