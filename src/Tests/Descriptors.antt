-- ===== src/Tests/Descriptors.antt =====
-- Witnesses for the descriptor of endpoints, and for the agent's endpoints as a whole.
use cnf_nsm.Common.{
  Bytes, ◌≡◌, ◌≤◌, refl, true, false, [], ◌∷◌, none, some, codes, str_eq, if◌then◌else◌, not, ◌&&◌,
  length,
}
use cnf_nsm.Proto.{NetworkServiceEndpoint, mem_interface}
use cnf_nsm.Naming.{nsm_base_dir}
use cnf_nsm.External.{ChangeRequest, update, existing, names_one}
use cnf_nsm.External.Shared.{about}
use cnf_nsm.Common.GoMap.{lookup, insert, erase}
use cnf_nsm.Errors.{env_not_defined}
use cnf_nsm.External.{Os, configured, linux, same_kind}
use cnf_nsm.External.Kinds.{interface_kind}
use cnf_nsm.Endpoint
use cnf_nsm.Endpoint.{NsmEndpoint, new_nsm_endpoint}
use cnf_nsm.Endpoint.Names.{open_name}
use cnf_nsm.Demux.{
  registration, register_nse, Handlers, EndpointReg, new_nsm_endpoint_demux, add_endpoint,
  ensure_connected, register_endpoint, delete_endpoint, delete_registered, demux_request,
  put_service,
}
use cnf_nsm.EndpointDescriptor.{
  NsmEndpointDescriptor, new_nsm_endpoint_descriptor, create, delete_nse, endpoint_configuration,
  endpoint_handlers, publish,
}
use cnf_nsm.EndpointDescriptor.Recreating.{delete_nse-create}
use cnf_nsm.EndpointDescriptor.System.{
  IsTransparent, SystemReach, started, after, creates, requests, system_serving,
  system_single_client, system_interfaces,
}
use cnf_nsm.Endpoint.Allocation.{request_answered}
use cnf_nsm.EndpointDescriptor.Registry.{offer_answered, service_answered, RegistryRuns, viewed}
use cnf_nsm.EndpointDescriptor.Refinement.{starts, offered, requested, registry_refines}
use cnf_nsm.Tests.Samples.{
  plain_composite-IsPassing, endpoint_of, open_one, sdk_names, sample_os, conn_a, env_config,
  sample_env, plain_composite, sample_handlers, open_reg, kernel_endpoint, sample_descriptor,
}

plain_composite-IsTransparent : IsTransparent plain_composite
plain_composite-IsTransparent = record {
  request_keeps = λ P f keeps. keeps;
  close_keeps = λ P f keeps. keeps;
}

-- An endpoint was created, and a client has connected.
abbrev created_one : NsmEndpointDescriptor
created_one =
    (create sdk_names sample_env env_config kernel_endpoint (new_nsm_endpoint_descriptor true)).1

abbrev connected_one : NsmEndpointDescriptor
connected_one = record created_one {
  ep_demux = (demux_request sample_handlers created_one.ep_demux conn_a).1;
}

abbrev connected_one_Reach : SystemReach sdk_names plain_composite connected_one
connected_one_Reach =
    after (after (started true) (creates sample_env env_config kernel_endpoint _))
      (requests sample_os none (λ e. []) _ conn_a)

system_serving_example :
    (connected_one.ep_demux.serving ≡ (if connected_one.ep_demux.connected then 1 else 0))
    × ((connected_one.ep_demux.connected
          && not (connected_one.ep_demux.nsm_conn && connected_one.ep_demux.grpc_server))
        ≡ false)
system_serving_example =
    system_serving sdk_names plain_composite plain_composite-IsTransparent connected_one
      connected_one_Reach

system_single_client_example : length open_reg.service.connections ≤ 1
unfolding new_nsm_endpoint_descriptor new_nsm_endpoint_demux create add_endpoint ensure_connected
    register_endpoint endpoint_configuration publish demux_request put_service endpoint_handlers
    lookup insert erase str_eq Endpoint.request Endpoint.drop_duplicate new_nsm_endpoint
    Endpoint.admit Endpoint.build_interface_config Endpoint.interface_name Endpoint.typed_config
system_single_client_example =
    system_single_client sdk_names plain_composite plain_composite-IsTransparent connected_one
      (codes "fw") open_reg connected_one_Reach refl refl

-- A client of the same agent has its interface configured.
abbrev foreign : ChangeRequest
foreign = update (
    existing (record {
      name = codes "eth";
      host_if_name = [];
      enabled = true;
      ip_addresses = [];
      phys_address = [];
    })
    ∷ [])

system_interfaces_example :
    configured linux (foreign ∷ open_reg.service.localclient) (codes "if0") ≡ (
      same_kind (interface_kind kernel_endpoint.interface_type) linux
      && open_name (codes "if") open_reg.service.connections (codes "if0"))
unfolding new_nsm_endpoint_descriptor new_nsm_endpoint_demux create add_endpoint ensure_connected
    register_endpoint endpoint_configuration publish demux_request put_service endpoint_handlers
    lookup insert erase str_eq Endpoint.request Endpoint.drop_duplicate new_nsm_endpoint
    Endpoint.admit Endpoint.build_interface_config Endpoint.interface_name Endpoint.typed_config
    about names_one same_kind
system_interfaces_example =
    system_interfaces sdk_names plain_composite plain_composite-IsTransparent connected_one
      (codes "fw") open_reg (foreign ∷ open_reg.service.localclient) linux (codes "if0")
      connected_one_Reach refl refl refl

registry_refines_example :
    RegistryRuns
      (service_answered (codes "fw") (request_answered conn_a.id none)
        ∷ offer_answered kernel_endpoint none
        ∷ [])
      (viewed connected_one.ep_demux.endpoints)
unfolding new_nsm_endpoint_descriptor new_nsm_endpoint_demux create add_endpoint ensure_connected
    register_endpoint endpoint_configuration publish demux_request put_service endpoint_handlers
    lookup insert erase str_eq Endpoint.request Endpoint.drop_duplicate new_nsm_endpoint
    Endpoint.admit Endpoint.build_interface_config Endpoint.interface_name Endpoint.typed_config
registry_refines_example =
    registry_refines sdk_names plain_composite plain_composite-IsPassing
      (service_answered (codes "fw") (request_answered conn_a.id none)
        ∷ offer_answered kernel_endpoint none
        ∷ [])
      connected_one
      (requested sample_os none (λ e. []) conn_a
        (offered sample_env env_config kernel_endpoint (starts true)))

-- An endpoint with memifs has a connection that cannot be closed, since the workspace is not known.
abbrev memif_endpoint : NetworkServiceEndpoint
memif_endpoint = endpoint_of true [] mem_interface

abbrev memif_reg : EndpointReg NsmEndpoint
memif_reg = record { ep_name = codes "fw-1"; service = open_one memif_endpoint }

abbrev memif_descriptor : NsmEndpointDescriptor
memif_descriptor = record sample_descriptor {
  ep_demux = record sample_descriptor.ep_demux { endpoints = (codes "fw", memif_reg) ∷ [] };
}

abbrev lost_os : Os
lost_os = record sample_os { lookup_env = λ name. none }

abbrev failing_handlers : Handlers NsmEndpoint
failing_handlers =
    endpoint_handlers lost_os sdk_names plain_composite none
      λ e. record { index = 0; conn = conn_a } ∷ []

abbrev deleted : NsmEndpointDescriptor
deleted = (delete_nse failing_handlers sample_env memif_endpoint memif_descriptor).1

abbrev recreated : NsmEndpointDescriptor
recreated = (create sdk_names sample_env env_config kernel_endpoint deleted).1

delete_nse-create_example :
    ((delete_nse failing_handlers sample_env memif_endpoint memif_descriptor).0 ≡ none)
    × (ep_name : Bytes) × (lookup (codes "fw") recreated.ep_demux.endpoints
        ≡ some (record { ep_name = ep_name; service = new_nsm_endpoint kernel_endpoint }))
    × (recreated.ep_demux.registry
        ≡ register_nse
            (registration sample_env (endpoint_configuration sdk_names env_config kernel_endpoint))
          ∷ [])
unfolding create add_endpoint ensure_connected register_endpoint endpoint_configuration publish
    delete_nse delete_endpoint delete_registered put_service endpoint_handlers lookup insert erase
    str_eq Endpoint.close_connections Endpoint.close_all Endpoint.close_connection
    Endpoint.build_interface_config Endpoint.interface_name Endpoint.typed_config nsm_base_dir
    Endpoint.request Endpoint.drop_duplicate Endpoint.admit new_nsm_endpoint
delete_nse-create_example =
    delete_nse-create failing_handlers sdk_names sample_env sample_env env_config memif_endpoint
      kernel_endpoint memif_descriptor memif_reg (env_not_defined (codes "NSM_WORKSPACE")) refl refl
      refl refl
