-- ===== src/Tests/Clients.antt =====
-- Witnesses for the descriptor of clients.
use cnf_nsm.Common.{none, arith, some, ◌≡◌, refl, true, false, List, [], ◌∷◌, codes, Bytes, str_eq}
use cnf_nsm.Common.GoMap.{erase, insert, lookup}
use cnf_nsm.Errors.{external}
use cnf_nsm.Naming.{nsm_base_dir}
use cnf_nsm.Proto.{NetworkServiceClient, kernel_interface, mem_interface}
use cnf_nsm.External.{
  linux, ChangeRequest, InterfaceConfig, update, delete, configured, MemifInterface, memif,
}
use cnf_nsm.Endpoint
use cnf_nsm.Endpoint.{new_nsm_endpoint}
use cnf_nsm.External.{Os}
use cnf_nsm.ClientDescriptor.{
  ClientSdk, NsmClientMetadata, NsmClientDescriptor, new_nsm_client_descriptor,
  build_interface_config, typed_config, create, delete_client,
}
use cnf_nsm.ClientDescriptor.Lifecycle.{is_open, is_connected, create_failed}
use cnf_nsm.ClientDescriptor.Order.{create_then_delete}
use cnf_nsm.ClientDescriptor.Sending.{ClientReach, wants, wanted, configured-wanted}
use cnf_nsm.Demux.{EndpointReg, NsmEndpointDemux, demux_request, put_service}
use cnf_nsm.EndpointDescriptor.{endpoint_handlers}
use cnf_nsm.Endpoint.{NsmEndpoint}
use cnf_nsm.Mesh.{last_handlers, linked}
use cnf_nsm.Mesh.Connecting.{created_memifs}
use mathlib.Core.Path.{subst}
use cnf_nsm.Demux.{demux_close}
use cnf_nsm.Demux.Serving.{AllServices}
use cnf_nsm.Endpoint.Invariant.{IsValid, new_nsm_endpoint-IsValid}
use cnf_nsm.Endpoint.Allocation.{indexes, release}
use cnf_nsm.Mesh.Disconnecting.{created_then_deleted}
use cnf_nsm.Tests.Samples.{
  plain_composite, plain_composite-IsPassing, sample_demux, sdk_names, sample_os, conn_a,
  endpoint_of, env_config, sample_client, sample_sdk, refusing_sdk,
}

abbrev before : NsmClientDescriptor
before = new_nsm_client_descriptor

abbrev kernel_client : NetworkServiceClient
kernel_client = sample_client kernel_interface

abbrev memif_client : NetworkServiceClient
memif_client = sample_client mem_interface

abbrev made_metadata : NsmClientMetadata
made_metadata = record { nsm_client = codes "client-1"; nsm_conn = conn_a }

create_failed_example :
    ((create sample_os sdk_names refusing_sdk env_config kernel_client before).1.spawned
      ≡ before.spawned)
    × ((id : Bytes)
        → is_open (create sample_os sdk_names refusing_sdk env_config kernel_client before).1.sdk id
          ≡ is_open before.sdk id)
    × ((id : Bytes)
        → is_connected
            (create sample_os sdk_names refusing_sdk env_config kernel_client before).1.sdk
            id
          ≡ is_connected before.sdk id)
unfolding create new_nsm_client_descriptor is_open is_connected
create_failed_example =
    create_failed sample_os sdk_names refusing_sdk env_config kernel_client before
      (external (codes "refused"))
      (record { closes = λ client conn. refl; destroys = λ client. refl }) (λ k h. (refl, refl))
      refl

-- The interface cannot be built, since the workspace is not known, and the connection is not closed.
abbrev lost_os : Os
lost_os = record sample_os { lookup_env = λ name. none }

abbrev unclosing_sdk : ClientSdk
unclosing_sdk = record sample_sdk { on_close = λ client conn. some (external (codes "lost")) }

create_then_delete_example :
    (config : List InterfaceConfig) × ((delete_client sample_os sdk_names sample_sdk kernel_client
        made_metadata
        (create sample_os sdk_names sample_sdk env_config kernel_client before).1).1.spawned
      ≡ delete config ∷ update config ∷ before.spawned)
    × (configured linux (delete config ∷ update config ∷ []) kernel_client.interface_name ≡ false)
    × (configured linux (update config ∷ delete config ∷ []) kernel_client.interface_name ≡ true)
unfolding create delete_client build_interface_config typed_config new_nsm_client_descriptor
create_then_delete_example =
    create_then_delete sample_os sdk_names sample_sdk sample_sdk env_config kernel_client before
      made_metadata refl refl

-- An agent that offers an endpoint with memifs.
abbrev memif_reg : EndpointReg NsmEndpoint
memif_reg = record {
  ep_name = codes "fw-1";
  service = new_nsm_endpoint (endpoint_of true [] mem_interface);
}

abbrev memif_demux : NsmEndpointDemux NsmEndpoint
memif_demux = record sample_demux { endpoints = (codes "fw", memif_reg) ∷ [] }

abbrev mesh_sdk : ClientSdk
mesh_sdk =
    linked (last_handlers sample_os sdk_names plain_composite (λ e. [])) memif_demux
      (λ client name mechanism descr. conn_a) sample_sdk

abbrev behind : NsmEndpointDemux NsmEndpoint
behind =
    (demux_request (last_handlers sample_os sdk_names plain_composite (λ e. [])) memif_demux
      conn_a).1

created_memifs_example :
    (client endpoint : MemifInterface) × (after : EndpointReg NsmEndpoint) × (sent : List
      ChangeRequest)
    × ((create sample_os sdk_names mesh_sdk env_config memif_client before).1.spawned
        ≡ update (memif client ∷ []) ∷ before.spawned)
    × (lookup (codes "fw") behind.endpoints ≡ some after)
    × (after.service.localclient ≡ update (memif endpoint ∷ []) ∷ sent)
    × (client.socket_filename ≡ endpoint.socket_filename)
    × (client.master ≡ false)
    × (endpoint.master ≡ true)
unfolding create build_interface_config typed_config nsm_base_dir new_nsm_endpoint lookup str_eq
    demux_request endpoint_handlers Endpoint.request Endpoint.admit Endpoint.drop_duplicate
    Endpoint.build_interface_config Endpoint.interface_name Endpoint.typed_config put_service insert
    erase new_nsm_client_descriptor
created_memifs_example =
    created_memifs sample_os sample_os sdk_names plain_composite plain_composite-IsPassing (λ e. [])
      memif_demux (λ client name mechanism descr. conn_a) sample_sdk env_config memif_client before
      made_metadata memif_reg refl refl refl refl refl

memif_demux-IsValid : AllServices IsValid memif_demux.endpoints
unfolding lookup
memif_demux-IsValid name ep found =
    let same : memif_reg ≡ ep = ground arith in
    subst (λ (r : EndpointReg NsmEndpoint). IsValid r.service) same
      (new_nsm_endpoint-IsValid (endpoint_of true [] mem_interface))

created_then_deleted_example :
    (after : EndpointReg NsmEndpoint) × (lookup
        (codes "fw")
        (demux_close
          (last_handlers sample_os sdk_names plain_composite (λ e. []))
          behind
          conn_a).1.endpoints
      ≡ some after)
    × (indexes after.service.connections
        ≡ release (codes "a") (indexes memif_reg.service.connections))
unfolding delete_client demux_close Endpoint.close Endpoint.close_connection
    Endpoint.get_connection_index create build_interface_config typed_config nsm_base_dir
    new_nsm_endpoint lookup str_eq demux_request endpoint_handlers Endpoint.request Endpoint.admit
    Endpoint.drop_duplicate Endpoint.build_interface_config Endpoint.interface_name
    Endpoint.typed_config put_service insert erase new_nsm_client_descriptor
created_then_deleted_example =
    created_then_deleted sample_os sample_os sdk_names plain_composite plain_composite-IsPassing
      (λ e. []) memif_demux (λ client name mechanism descr. conn_a) sample_sdk sample_sdk env_config
      memif_client before before made_metadata memif_reg memif_demux-IsValid refl refl refl

configured-wanted_example :
    configured linux
      (create sample_os sdk_names sample_sdk env_config kernel_client before).1.spawned
      (codes "eth")
    ≡ wanted linux (wants linux kernel_client.interface_name ∷ []) (codes "eth")
unfolding create build_interface_config typed_config new_nsm_client_descriptor
configured-wanted_example =
    configured-wanted sdk_names (wants linux kernel_client.interface_name ∷ [])
      (create sample_os sdk_names sample_sdk env_config kernel_client before).1
      (create sample_os sdk_names sample_sdk env_config kernel_client before).1.spawned linux
      (codes "eth")
      (ClientReach.creates sample_os sample_sdk env_config kernel_client {m = made_metadata}
        ClientReach.unused refl)
      refl
