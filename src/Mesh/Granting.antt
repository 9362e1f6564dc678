-- ===== src/Mesh/Granting.antt =====
-- What a client has asked for, and what the demultiplexer of the other agent grants.
use cnf_nsm.Common.{
  ◌≡◌, refl, sym, ap, ◌∙◌, List, ◌∷◌, Option, none, some, Bytes, arith, inl, inr, str_eq_refl,
}
use cnf_nsm.Common.GoMap.{lookup}
use cnf_nsm.Errors.{Error, ok, Result-cases}
use cnf_nsm.Proto.{NetworkServiceClient}
use cnf_nsm.External.{Os, SdkNames, Connection, NsConfiguration, InterfaceConfig, update}
use cnf_nsm.Endpoint.{NsmConnection, NsmEndpoint, request}
use cnf_nsm.Endpoint.Granted.{IsGranted, request-IsGranted, request_answer}
use cnf_nsm.Demux.{EndpointReg, NsmEndpointDemux, demux_request}
use cnf_nsm.Demux.Routing.{demux_routing, handled}
use cnf_nsm.EndpointDescriptor.{Composite, endpoint_handlers}
use cnf_nsm.EndpointDescriptor.Passing.{IsPassing, passed_request}
use cnf_nsm.ClientDescriptor
use cnf_nsm.ClientDescriptor.{
  ClientSdk, NsmClientMetadata, NsmClientDescriptor, client_configuration, create,
}
use cnf_nsm.Mesh.{last_handlers, answered}

-- What a client that was created had asked for: its connection, and the configuration of its interface.
pub created_connection :
    (os : Os) (names : SdkNames) (sdk : ClientSdk) (from_env : NsConfiguration)
    (cfg : NetworkServiceClient) (d : NsmClientDescriptor) (m : NsmClientMetadata)
    → (create os names sdk from_env cfg d).0 ≡ ok m
    → (sdk.on_connect m.nsm_client cfg.interface_name
          (client_configuration names from_env cfg).mechanism_type
          cfg.name
        ≡ ok m.nsm_conn)
      × (configs : List InterfaceConfig) × (ClientDescriptor.build_interface_config os names cfg
            m.nsm_conn
          ≡ ok configs)
      × ((create os names sdk from_env cfg d).1.spawned ≡ update configs ∷ d.spawned)
unfolding create
created_connection os names sdk from_env cfg d m made =
    let configuration = client_configuration names from_env cfg in
    elim (Result-cases (sdk.on_new configuration)) [
      | inl (x, h) ↦ absurd (ground arith)
      | inr (client, h) ↦
          elim (Result-cases
            (sdk.on_connect client cfg.interface_name configuration.mechanism_type cfg.name)) [
              | inl (x, k) ↦ absurd (ground arith)
              | inr (conn, k) ↦
                  elim (Result-cases (ClientDescriptor.build_interface_config os names cfg conn)) [
                    | inl (x, b) ↦ absurd (ground arith)
                    | inr (configs, b) ↦ (ground arith, configs, ground arith, ground arith)
                  ]
            ]
    ]

pub answered_granted :
    (r : Connection × Option Error) (conn : Connection)
    → answered r ≡ ok conn
    → (r.1 ≡ none) × (conn ≡ r.0)
answered_granted (c, none) conn h = (refl, ground arith)
answered_granted (c, some x) conn h = cc

module _ (os : Os) (names : SdkNames) (composite : Composite) (passing : IsPassing composite)
    (order : NsmEndpoint → List NsmConnection) (x : NsmEndpointDemux NsmEndpoint)
    (asked c : Connection) (prepared : c ≡ passing.prepare asked) where
  -- A request that the demultiplexer grants leaves the connection open that the composite prepared, at the
  -- endpoint of its network service.
  pub demux_request-IsGranted :
      (demux_request (last_handlers os names composite order) x asked).0.1 ≡ none
      → (before after : EndpointReg NsmEndpoint) × (lookup c.network_service x.endpoints
          ≡ some before)
        × (lookup c.network_service
              (demux_request (last_handlers os names composite order) x asked).1.endpoints
            ≡ some after)
        × IsGranted os names before.service c after.service
  unfolding endpoint_handlers
  demux_request-IsGranted granted =
      let named : c.network_service ≡ asked.network_service =
        ap (λ (d : Connection). d.network_service) prepared ∙ passing.same_service asked in
      elim (demux_routing (last_handlers os names composite order) x asked) [
        | inl (absent, refused, _) ↦ absurd (ground arith)
        | inr (ep, found, answer, _, others) ↦
            let passed : composite.request (request os names none) ep.service asked
                ≡ request os names none ep.service c =
              passed_request composite passing (request os names none) ep.service asked
                (ap (λ (r : Connection × Option Error). r.1) (sym answer) ∙ granted)
              ∙ ap (request os names none ep.service) (sym prepared) in
            (
              ep,
              handled ep (request os names none ep.service c).1,
              ap (λ (n : Bytes). lookup n x.endpoints) named ∙ found,
              ap
                    (λ (n : Bytes).
                      lookup n
                        (demux_request (last_handlers os names composite order) x
                          asked).1.endpoints)
                    named
                  ∙ (others asked.network_service).0
                  ∙ rw (str_eq_refl asked.network_service, passed) refl,
              request-IsGranted os names ep.service c (
                  ap (λ (r : (Connection × Option Error) × NsmEndpoint). r.0.1) (sym passed)
                  ∙ ap (λ (r : Connection × Option Error). r.1) (sym answer)
                  ∙ granted),
            )
      ]

  -- Its answer is the connection that the composite prepared.
  pub demux_request-answer :
      (demux_request (last_handlers os names composite order) x asked).0.1 ≡ none
      → (demux_request (last_handlers os names composite order) x asked).0.0 ≡ c
  unfolding endpoint_handlers
  demux_request-answer granted =
      elim (demux_routing (last_handlers os names composite order) x asked) [
        | inl (absent, refused, _) ↦ absurd (ground arith)
        | inr (ep, found, answer, _, others) ↦
            ap (λ (r : Connection × Option Error). r.0) answer
            ∙ ap (λ (r : (Connection × Option Error) × NsmEndpoint). r.0.0)
                (passed_request composite passing (request os names none) ep.service asked
                  (ap (λ (r : Connection × Option Error). r.1) (sym answer) ∙ granted))
            ∙ request_answer os names ep.service (passing.prepare asked)
            ∙ sym prepared
      ]
