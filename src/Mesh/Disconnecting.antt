-- ===== src/Mesh/Disconnecting.antt =====
-- What is left at the endpoint once a client is deleted.
use mathlib.Core.Path.{fun_ext}
use mathlib.Core.Option.{some-injective}
use cnf_nsm.Common.{
  ℕ, ◌≡◌, refl, sym, ap, ◌∙◌, List, Option, none, some, Bytes, arith, Option-cases, inl, inr,
  str_eq_refl,
}
use cnf_nsm.Common.GoMap.{lookup}
use cnf_nsm.Errors.{Error, ok, Result-cases}
use cnf_nsm.Proto.{NetworkServiceClient, NetworkServiceEndpoint}
use cnf_nsm.External.{Os, SdkNames, Connection, NsConfiguration}
use cnf_nsm.Endpoint.{NsmConnection, NsmEndpoint, request, close}
use cnf_nsm.Endpoint.Invariant.{IsValid}
use cnf_nsm.Endpoint.Allocation.{Allocation, assign, release, Assigns, assigns, indexes}
use cnf_nsm.Endpoint.Refinement.{request_refines, close_refines}
use cnf_nsm.Demux.{EndpointReg, NsmEndpointDemux, demux_request, demux_close}
use cnf_nsm.Demux.Routing.{demux_routing, handled}
use cnf_nsm.Demux.Serving.{AllServices}
use cnf_nsm.EndpointDescriptor.{Composite, endpoint_handlers}
use cnf_nsm.EndpointDescriptor.Passing.{IsPassing, passed_request, passed_close}
use cnf_nsm.ClientDescriptor.{
  ClientSdk, NsmClientMetadata, NsmClientDescriptor, create, delete_client, build_interface_config,
}
use cnf_nsm.Mesh.{last_handlers, asked_for, linked, closing}
use cnf_nsm.Mesh.Connecting.{created_granted}

release-assign : (k : Bytes) (i : ℕ) (s : Allocation) → release k (assign k i s) ≡ release k s
release-assign k i s = fun_ext λ id. ground arith

release-Assigns :
    {cfg : NetworkServiceEndpoint} {k : Bytes} {s t : Allocation}
    → Assigns cfg k s t
    → release k t ≡ release k s
release-Assigns {k = k} {s = s} (assigns i chosen alone) = release-assign k i s

module _ (os : Os) (names : SdkNames) (composite : Composite) (passing : IsPassing composite)
    (order : NsmEndpoint → List NsmConnection) (x : NsmEndpointDemux NsmEndpoint) where
  -- A request that is granted, but for the client's own index, leaves the indexes of the endpoint.
  granted_indexes :
      (asked c : Connection) (ep : EndpointReg NsmEndpoint)
      → c ≡ passing.prepare asked
      → AllServices IsValid x.endpoints
      → lookup c.network_service x.endpoints ≡ some ep
      → (demux_request (last_handlers os names composite order) x asked).0.1 ≡ none
      → (after : EndpointReg NsmEndpoint) × (lookup c.network_service
            (demux_request (last_handlers os names composite order) x asked).1.endpoints
          ≡ some after)
        × (release c.id (indexes after.service.connections)
            ≡ release c.id (indexes ep.service.connections))
  unfolding endpoint_handlers
  granted_indexes asked c ep prepared valid found granted =
      let named : c.network_service ≡ asked.network_service =
        ap (λ (d : Connection). d.network_service) prepared ∙ passing.same_service asked in
      elim (demux_routing (last_handlers os names composite order) x asked) [
        | inl (absent, refused, _) ↦ absurd (ground arith)
        | inr (ep', found', answer, _, others) ↦
            let there : lookup c.network_service x.endpoints ≡ some ep' =
              ap (λ (n : Bytes). lookup n x.endpoints) named ∙ found' in
            let same : ep' ≡ ep = some-injective _ _ (sym there ∙ found) in
            let passed : composite.request (request os names none) ep'.service asked
                ≡ request os names none ep'.service c =
              passed_request composite passing (request os names none) ep'.service asked
                (ap (λ (r : Connection × Option Error). r.1) (sym answer) ∙ granted)
              ∙ ap (request os names none ep'.service) (sym prepared) in
            let done : (request os names none ep'.service c).0.1 ≡ none =
              ap (λ (r : (Connection × Option Error) × NsmEndpoint). r.0.1) (sym passed)
              ∙ ap (λ (r : Connection × Option Error). r.1) (sym answer)
              ∙ granted in
            (
              handled ep' (request os names none ep'.service c).1,
              ap
                    (λ (n : Bytes).
                      lookup n
                        (demux_request (last_handlers os names composite order) x
                          asked).1.endpoints)
                    named
                  ∙ (others asked.network_service).0
                  ∙ rw (str_eq_refl asked.network_service, passed) refl,
              elim (request_refines os names none ep'.service c
                  (valid c.network_service ep' there)) [
                    | inl (failed, _) ↦ absurd (failed done)
                    | inr a ↦
                        release-Assigns a
                        ∙ ap
                            (λ (e : EndpointReg NsmEndpoint).
                              release c.id (indexes e.service.connections))
                            same
                  ],
            )
      ]

  closed_indexes :
      (conn : Connection)
      → (demux_close (last_handlers os names composite order) x conn).0 ≡ none
      → (before after : EndpointReg NsmEndpoint) × (lookup conn.network_service x.endpoints
          ≡ some before)
        × (lookup conn.network_service
              (demux_close (last_handlers os names composite order) x conn).1.endpoints
            ≡ some after)
        × (indexes after.service.connections ≡ release conn.id (indexes before.service.connections))
  unfolding endpoint_handlers
  closed_indexes conn granted =
      elim (demux_routing (last_handlers os names composite order) x conn) [
        | inl (absent, _, refused) ↦ absurd (ground arith)
        | inr (ep, found, _, answer, others) ↦
            let passed =
              passed_close composite passing (close os names none) ep.service conn
                (sym answer ∙ granted) in
            (
              ep,
              handled ep (close os names none ep.service conn).1,
              found,
              (others conn.network_service).1 ∙ rw (str_eq_refl conn.network_service, passed) refl,
              elim (close_refines os names none ep.service conn) [
                | inl (failed, _) ↦ absurd (
                    failed (
                      ap (λ (r : Option Error × NsmEndpoint). r.0) (sym passed)
                      ∙ sym answer
                      ∙ granted))
                | inr gone ↦ gone
              ],
            )
      ]

deleted_closes :
    (os : Os) (names : SdkNames) (sdk : ClientSdk) (cfg : NetworkServiceClient)
    (m : NsmClientMetadata) (d : NsmClientDescriptor)
    → (delete_client os names sdk cfg m d).0 ≡ none
    → sdk.on_close m.nsm_client m.nsm_conn ≡ none
unfolding delete_client
deleted_closes os names sdk cfg m d done =
    elim (Result-cases (build_interface_config os names cfg m.nsm_conn)) [
      | inl (x, failed) ↦ absurd (ground arith)
      | inr (configs, built) ↦ elim (Option-cases (sdk.on_close m.nsm_client m.nsm_conn)) [
        | inr (x, refused) ↦ absurd (ground arith)
        | inl closed ↦ closed
      ]
    ]

module _ (os os' : Os) (names : SdkNames) (composite : Composite) (passing : IsPassing composite)
    (order : NsmEndpoint → List NsmConnection) (x : NsmEndpointDemux NsmEndpoint)
    (asks : Bytes → Bytes → Bytes → Bytes → Connection) (sdk sdk' : ClientSdk) where
  -- A client that was created, and then deleted without an error, where NSM takes what its descriptor
  -- asks for to the demultiplexer of another agent, leaves the indexes of the endpoint there as they
  -- were, except that the client has none. The endpoints of that agent are valid. Their composite hands
  -- calls on or refuses them, and leaves identifiers and network services as they are.
  pub created_then_deleted :
      (from_env : NsConfiguration) (cfg : NetworkServiceClient) (d d' : NsmClientDescriptor)
      (m : NsmClientMetadata) (ep : EndpointReg NsmEndpoint)
      → AllServices IsValid x.endpoints
      → lookup m.nsm_conn.network_service x.endpoints ≡ some ep
      → (create os names
          (linked (last_handlers os' names composite order) x asks sdk)
          from_env
          cfg
          d).0
        ≡ ok m
      → (delete_client os names
          (closing
            (last_handlers os' names composite order)
            (demux_request
              (last_handlers os' names composite order)
              x
              (asked_for asks names from_env cfg m)).1
            sdk')
          cfg
          m
          d').0
        ≡ none
      → (after : EndpointReg NsmEndpoint) × (lookup m.nsm_conn.network_service
            (demux_close
              (last_handlers os' names composite order)
              (demux_request
                (last_handlers os' names composite order)
                x
                (asked_for asks names from_env cfg m)).1
              m.nsm_conn).1.endpoints
          ≡ some after)
        × (indexes after.service.connections
            ≡ release m.nsm_conn.id (indexes ep.service.connections))
  created_then_deleted from_env cfg d d' m ep valid found made deleted =
      let asked = asked_for asks names from_env cfg m in
      let (granted, prepared) =
        created_granted os os' names composite passing order x asks sdk from_env cfg d m made in
      let (opened, at, kept) =
        granted_indexes os' names composite passing order x asked m.nsm_conn ep prepared valid found
          granted in
      let (before, after, there, left, gone) =
        closed_indexes os' names composite passing order
          (demux_request (last_handlers os' names composite order) x asked).1 m.nsm_conn
          (deleted_closes os names _ cfg m d' deleted) in
      let same : before ≡ opened = some-injective _ _ (sym there ∙ at) in
      (
        after,
        left,
        gone
            ∙ ap
                (λ (e : EndpointReg NsmEndpoint).
                  release m.nsm_conn.id (indexes e.service.connections))
                same
            ∙ kept,
      )
