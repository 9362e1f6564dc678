-- ===== src/Tests/Meshes.antt =====
-- Witnesses for the clients of several agents.
use mathlib.Core.Path.{subst}
use cnf_nsm.Common.{
  arith, ◌≡◌, ◌≢◌, ◌∙◌, ap, refl, true, false, [], ◌∷◌, ◌++◌, some, codes, inl, inr, str_eq,
}
use cnf_nsm.Common.GoMap.{lookup, insert, erase}
use cnf_nsm.GoLib.Decimal.{itoa}
use cnf_nsm.Proto.{NetworkServiceEndpoint, kernel_interface}
use cnf_nsm.External.{Connection, configured}
use cnf_nsm.External.Kinds.{interface_kind}
use cnf_nsm.Endpoint
use cnf_nsm.Endpoint.{NsmConnection, NsmEndpoint, new_nsm_endpoint}
use cnf_nsm.Endpoint.Invariant.{IsValid, new_nsm_endpoint-IsValid}
use cnf_nsm.Demux.{
  EndpointReg, NsmEndpointDemux, demux_request, put_service, add_endpoint, ensure_connected,
  register_endpoint,
}
use cnf_nsm.Demux.Serving.{AllServices}
use cnf_nsm.EndpointDescriptor
use cnf_nsm.EndpointDescriptor.{
  endpoint_handlers, NsmEndpointDescriptor, delete_nse, publish, endpoint_configuration,
}
use cnf_nsm.ClientDescriptor.{
  NsmClientMetadata, new_nsm_client_descriptor, create, build_interface_config, typed_config,
}
use cnf_nsm.Mesh.{last_handlers}
use cnf_nsm.Mesh.Population.{IsIn, Population, begins, comes, offers, withdraws}
use cnf_nsm.Mesh.Population.Apart.{interfaces_apart}
use cnf_nsm.Tests.Samples.{
  plain_composite, plain_composite-IsPassing, sdk_names, sample_os, conn_a, conn_b, endpoint_of,
  open_two, env_config, sample_client, sample_sdk, sample_demux, sample_env,
}

abbrev many : NetworkServiceEndpoint
many = endpoint_of false [] kernel_interface

abbrev fresh_reg : EndpointReg NsmEndpoint
fresh_reg = record { ep_name = codes "fw-1"; service = new_nsm_endpoint many }

abbrev open_reg : EndpointReg NsmEndpoint
open_reg = record { ep_name = codes "fw-1"; service = open_two many }

abbrev empty_demux : NsmEndpointDemux NsmEndpoint
empty_demux = record sample_demux { endpoints = (codes "fw", fresh_reg) ∷ [] }

empty_demux-IsValid : AllServices IsValid empty_demux.endpoints
unfolding lookup
empty_demux-IsValid name ep found =
    let same : fresh_reg ≡ ep = ground arith in
    subst (λ (r : EndpointReg NsmEndpoint). IsValid r.service) same (new_nsm_endpoint-IsValid many)

abbrev first : NsmClientMetadata
first = record { nsm_client = codes "client-1"; nsm_conn = conn_a }

abbrev second : NsmClientMetadata
second = record { nsm_client = codes "client-1"; nsm_conn = conn_b }

abbrev asked : NsmEndpointDemux NsmEndpoint → Connection → NsmEndpointDemux NsmEndpoint
asked x conn =
    (demux_request (last_handlers sample_os sdk_names plain_composite (λ e. [])) x conn).1

abbrev started : NsmEndpointDescriptor
started = record { notif_publisher = some []; ep_demux = empty_demux }

abbrev other_service : NetworkServiceEndpoint
other_service = record many { network_service = codes "nat" }

abbrev two_services : NsmEndpointDemux NsmEndpoint
two_services =
    (EndpointDescriptor.create sdk_names sample_env env_config other_service started).1.ep_demux

abbrev busy : NsmEndpointDescriptor
busy = record started { ep_demux = asked (asked two_services conn_a) conn_b }

abbrev at_last : NsmEndpointDemux NsmEndpoint
at_last =
    (delete_nse (last_handlers sample_os sdk_names plain_composite (λ e. [])) sample_env
      other_service busy).1.ep_demux

apart : codes "b" ≢ codes "a"
apart = ground arith

other_name : codes "nat" ≢ codes "fw"
other_name = ground arith

their_service :
    (m : NsmClientMetadata) → IsIn m (second ∷ first ∷ []) → m.nsm_conn.network_service ≡ codes "fw"
their_service m (inl e) = ap (λ (l : NsmClientMetadata). l.nsm_conn.network_service) e
their_service m (inr (inl e)) = ap (λ (l : NsmClientMetadata). l.nsm_conn.network_service) e
their_service m (inr (inr none_left)) = elim none_left [ ]

-- A second endpoint is created, two clients come, each of an agent of its own, and the endpoint is
-- deleted.
two_clients : Population sdk_names plain_composite at_last (second ∷ first ∷ [])
unfolding create build_interface_config typed_config new_nsm_client_descriptor demux_request
    put_service endpoint_handlers lookup insert erase str_eq Endpoint.request
    Endpoint.drop_duplicate new_nsm_endpoint Endpoint.admit Endpoint.build_interface_config
    Endpoint.interface_name Endpoint.typed_config EndpointDescriptor.create add_endpoint
    ensure_connected register_endpoint publish endpoint_configuration
two_clients =
    let offered =
      offers sample_env env_config other_service started [] (begins empty_demux empty_demux-IsValid)
        (λ m i. absurd i) in
    let one =
      comes sample_os sample_os (λ e. []) (λ client name mechanism descr. conn_a) sample_sdk
        env_config (sample_client kernel_interface) new_nsm_client_descriptor {m = first} offered
        refl tt in
    let both =
      comes sample_os sample_os (λ e. []) (λ client name mechanism descr. conn_b) sample_sdk
        env_config (sample_client kernel_interface) new_nsm_client_descriptor {m = second} one refl
        (apart, tt) in
    withdraws sample_os (λ e. []) sample_env other_service busy (second ∷ first ∷ []) both
      (λ m i. (i, λ e. other_name (e ∙ their_service m i)))

interfaces_apart_example :
    (ep : EndpointReg NsmEndpoint) × (c : NsmConnection) × (lookup (codes "fw") at_last.endpoints
      ≡ some ep)
    × (lookup (codes "b") ep.service.connections ≡ some c)
    × (ep.service.cfg.interface_name_suffix_from_label ≡ []
        → (configured
              (interface_kind ep.service.cfg.interface_type)
              ep.service.localclient
              (ep.service.cfg.interface_name_prefix ++ itoa c.index)
            ≡ true)
          × ((l : NsmClientMetadata)
              → IsIn l (second ∷ first ∷ [])
              → codes "b" ≢ l.nsm_conn.id
              → codes "fw" ≡ l.nsm_conn.network_service
              → (b : NsmConnection) × (lookup l.nsm_conn.id ep.service.connections ≡ some b)
                × (ep.service.cfg.interface_name_prefix ++ itoa c.index
                    ≢ ep.service.cfg.interface_name_prefix ++ itoa b.index)))
interfaces_apart_example =
    interfaces_apart sdk_names plain_composite plain_composite-IsPassing at_last
      (second ∷ first ∷ []) second two_clients (inl refl)
