-- ===== src/Mesh/Connecting.antt =====
-- What stands at both ends once a client is created.
use mathlib.Core.Option.{some-injective}
use cnf_nsm.Common.{true, false, ◌≡◌, refl, sym, ap, ◌∙◌, List, [], ◌∷◌, none, some, Bytes, arith}
use cnf_nsm.Common.GoMap.{lookup}
use cnf_nsm.Errors.{ok}
use cnf_nsm.Proto.{NetworkServiceClient, mem_interface}
use cnf_nsm.External.{
  Os, SdkNames, Connection, NsConfiguration, InterfaceConfig, memif, MemifInterface, update,
  ChangeRequest,
}
use cnf_nsm.Naming.{nsm_base_dir}
use cnf_nsm.Endpoint.{NsmConnection, NsmEndpoint}
use cnf_nsm.Endpoint.Granted.{IsGranted}
use cnf_nsm.Demux.{EndpointReg, NsmEndpointDemux, demux_request}
use cnf_nsm.EndpointDescriptor.{Composite}
use cnf_nsm.EndpointDescriptor.Passing.{IsPassing}
use cnf_nsm.ClientDescriptor
use cnf_nsm.ClientDescriptor.{
  ClientSdk, NsmClientMetadata, NsmClientDescriptor, client_configuration, create,
}
use cnf_nsm.ClientDescriptor.Interface.{memif_pair}
use cnf_nsm.Mesh.{last_handlers, asked_for, linked}
use cnf_nsm.Mesh.Granting.{
  created_connection, answered_granted, demux_request-IsGranted, demux_request-answer,
}

module _ (os os' : Os) (names : SdkNames) (composite : Composite) (passing : IsPassing composite)
    (order : NsmEndpoint → List NsmConnection) (x : NsmEndpointDemux NsmEndpoint)
    (asks : Bytes → Bytes → Bytes → Bytes → Connection) (sdk : ClientSdk) where
  -- The request behind a client that was created was granted, and the client has the connection that the
  -- composite prepared.
  pub created_granted :
      (from_env : NsConfiguration) (cfg : NetworkServiceClient) (d : NsmClientDescriptor)
      (m : NsmClientMetadata)
      → (create os names
          (linked (last_handlers os' names composite order) x asks sdk)
          from_env
          cfg
          d).0
        ≡ ok m
      → ((demux_request
            (last_handlers os' names composite order)
            x
            (asked_for asks names from_env cfg m)).0.1
          ≡ none)
        × (m.nsm_conn ≡ passing.prepare (asked_for asks names from_env cfg m))
  created_granted from_env cfg d m made =
      let asked = asked_for asks names from_env cfg m in
      let (connected, _, _, _) =
        created_connection os names (linked (last_handlers os' names composite order) x asks sdk)
          from_env cfg d m made in
      let (granted, same) = answered_granted _ m.nsm_conn connected in
      (
        granted,
        same
            ∙ demux_request-answer os' names composite passing order x asked (passing.prepare asked)
                refl granted,
      )

  -- A client whose `Create` succeeds, where NSM takes what its descriptor asks for to the demultiplexer
  -- of another agent, has the connection that the composite there prepared of the one requested; and it is
  -- open, under its identifier, at the endpoint that was registered there for its network service.
  pub created_connects :
      (from_env : NsConfiguration) (cfg : NetworkServiceClient) (d : NsmClientDescriptor)
      (m : NsmClientMetadata)
      → (create os names
          (linked (last_handlers os' names composite order) x asks sdk)
          from_env
          cfg
          d).0
        ≡ ok m
      → (configs : List InterfaceConfig) × (before after : EndpointReg NsmEndpoint)
        × (ClientDescriptor.build_interface_config os names cfg m.nsm_conn ≡ ok configs)
        × ((create os names
              (linked (last_handlers os' names composite order) x asks sdk)
              from_env
              cfg
              d).1.spawned
            ≡ update configs ∷ d.spawned)
        × (lookup m.nsm_conn.network_service x.endpoints ≡ some before)
        × (lookup m.nsm_conn.network_service
              (demux_request
                (last_handlers os' names composite order)
                x
                (asked_for asks names from_env cfg m)).1.endpoints
            ≡ some after)
        × IsGranted os' names before.service m.nsm_conn after.service
  created_connects from_env cfg d m made =
      let (_, configs, built, spawned) =
        created_connection os names (linked (last_handlers os' names composite order) x asks sdk)
          from_env cfg d m made in
      let (granted, prepared) = created_granted from_env cfg d m made in
      let (before, after, found, left, opens) =
        demux_request-IsGranted os' names composite passing order x
          (asked_for asks names from_env cfg m) m.nsm_conn prepared granted in
      (configs, before, after, built, spawned, found, left, opens)

  -- A client is created without an error, where NSM takes what its descriptor asks for to the
  -- demultiplexer of another agent, behind a composite that hands requests on or refuses them, and
  -- leaves identifiers and network services as they are. If the interfaces of the client and of the
  -- endpoint that is registered there for its network service are memifs, and both agents have one base
  -- directory: then the client's agent is asked for a memif, and the last request of the endpoint to its
  -- agent is for a memif on the same socket; that of the endpoint is the master.
  pub created_memifs :
      (from_env : NsConfiguration) (cfg : NetworkServiceClient) (d : NsmClientDescriptor)
      (m : NsmClientMetadata) (ep : EndpointReg NsmEndpoint)
      → (create os names
          (linked (last_handlers os' names composite order) x asks sdk)
          from_env
          cfg
          d).0
        ≡ ok m
      → lookup m.nsm_conn.network_service x.endpoints ≡ some ep
      → cfg.interface_type ≡ mem_interface
      → ep.service.cfg.interface_type ≡ mem_interface
      → nsm_base_dir os names ≡ nsm_base_dir os' names
      → (client endpoint : MemifInterface) × (after : EndpointReg NsmEndpoint) × (sent : List
          ChangeRequest)
        × ((create os names
              (linked (last_handlers os' names composite order) x asks sdk)
              from_env
              cfg
              d).1.spawned
            ≡ update (memif client ∷ []) ∷ d.spawned)
        × (lookup m.nsm_conn.network_service
              (demux_request
                (last_handlers os' names composite order)
                x
                (asked_for asks names from_env cfg m)).1.endpoints
            ≡ some after)
        × (after.service.localclient ≡ update (memif endpoint ∷ []) ∷ sent)
        × (client.socket_filename ≡ endpoint.socket_filename)
        × (client.master ≡ false)
        × (endpoint.master ≡ true)
  created_memifs from_env cfg d m ep made registered mem mem' same_dir =
      let (configs, before, after, built, spawned, found, left, opens) =
        created_connects from_env cfg d m made in
      let same : before ≡ ep = some-injective _ _ (sym found ∙ registered) in
      let mem_rest : opens.rest.cfg.interface_type ≡ mem_interface =
        ground (arith, opens.same_cfg) in
      let (client, endpoint, its, that, socket, slave, master) =
        memif_pair os os' names cfg opens.rest m.nsm_conn m.nsm_conn configs opens.config
          opens.index mem mem_rest refl same_dir built opens.built in
      (
        client,
        endpoint,
        after,
        opens.rest.localclient,
        spawned ∙ ap (λ (l : List InterfaceConfig). update l ∷ d.spawned) its,
        left,
        ap (λ (e : NsmEndpoint). e.localclient) opens.left
            ∙ ap (λ (c : InterfaceConfig). update (c ∷ []) ∷ opens.rest.localclient) that,
        socket,
        slave,
        master,
      )
