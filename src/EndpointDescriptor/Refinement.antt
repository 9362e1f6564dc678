-- ===== src/EndpointDescriptor/Refinement.antt =====
-- The agent's endpoints against what the agent promises of them.
use cnf_nsm.Common.{Bool, List, [], ◌∷◌, Option}
use cnf_nsm.Common.GoMap.{lookup}
use cnf_nsm.Proto.{NetworkServiceEndpoint}
use cnf_nsm.External.{Os, SdkNames, Connection, NsConfiguration}
use cnf_nsm.Endpoint.{NsmConnection, NsmEndpoint, Next}
use cnf_nsm.Endpoint.Invariant.{IsValid}
use cnf_nsm.Endpoint.Allocation.{request_answered, close_answered}
use cnf_nsm.Demux.{DemuxEnv, new_nsm_endpoint_demux, delete_endpoint, demux_request, demux_close}
use cnf_nsm.Demux.Serving.{AllServices}
use cnf_nsm.EndpointDescriptor.{
  Composite, NsmEndpointDescriptor, endpoint_handlers, new_nsm_endpoint_descriptor, create,
  delete_nse,
}
use cnf_nsm.EndpointDescriptor.Passing.{IsPassing, IsPassing-IsTransparent}
use cnf_nsm.EndpointDescriptor.System.{
  creates, deletes, requests, closes, SystemReach, started, after, SystemReach-IsSound,
  ep_demux-publish,
}
use cnf_nsm.EndpointDescriptor.Registry.{
  AgentCall, offer_answered, withdraw_answered, service_answered, RegistryRuns, empty, next_call,
  viewed,
}
use cnf_nsm.EndpointDescriptor.Answering.{
  demux_request_refines, demux_close_refines, delete_endpoint_refines, create_refines,
}

-- The agent after any calls of it and of NSM, with their answers; that of a `Delete` is the one that the
-- demultiplexer gives to the descriptor.
pub data Answered (names : SdkNames) (composite : Composite)
    : List AgentCall → NsmEndpointDescriptor → Type 0 where
  starts : (injected : Bool) → Answered names composite [] (new_nsm_endpoint_descriptor injected)
  offered :
      (env : DemuxEnv) (from_env : NsConfiguration) (cfg : NetworkServiceEndpoint)
      {h : List AgentCall} {d : NsmEndpointDescriptor}
      → Answered names composite h d
      → Answered names composite
          (offer_answered cfg (create names env from_env cfg d).0 ∷ h)
          (create names env from_env cfg d).1
  withdrawn :
      (os : Os) (next : Option Next) (order : NsmEndpoint → List NsmConnection) (env : DemuxEnv)
      (cfg : NetworkServiceEndpoint) {h : List AgentCall} {d : NsmEndpointDescriptor}
      → Answered names composite h d
      → Answered names composite
          (withdraw_answered cfg.network_service
              (delete_endpoint
                (endpoint_handlers os names composite next order)
                env
                cfg.network_service
                d.ep_demux).0
            ∷ h)
          (delete_nse (endpoint_handlers os names composite next order) env cfg d).1
  requested :
      (os : Os) (next : Option Next) (order : NsmEndpoint → List NsmConnection) (conn : Connection)
      {h : List AgentCall} {d : NsmEndpointDescriptor}
      → Answered names composite h d
      → Answered names composite
          (service_answered conn.network_service (
              request_answered conn.id
                (demux_request
                  (endpoint_handlers os names composite next order)
                  d.ep_demux
                  conn).0.1)
            ∷ h)
          (record d {
            ep_demux =
                (demux_request (endpoint_handlers os names composite next order) d.ep_demux conn).1;
          })
  ended :
      (os : Os) (next : Option Next) (order : NsmEndpoint → List NsmConnection) (conn : Connection)
      {h : List AgentCall} {d : NsmEndpointDescriptor}
      → Answered names composite h d
      → Answered names composite
          (service_answered conn.network_service (
              close_answered conn.id
                (demux_close (endpoint_handlers os names composite next order) d.ep_demux conn).0)
            ∷ h)
          (record d {
            ep_demux =
                (demux_close (endpoint_handlers os names composite next order) d.ep_demux conn).1;
          })

Answered-SystemReach :
    {names : SdkNames} {composite : Composite} {h : List AgentCall} {d : NsmEndpointDescriptor}
    → Answered names composite h d
    → SystemReach names composite d
Answered-SystemReach (starts injected) = started injected
Answered-SystemReach (offered env from_env cfg {d = d} s) =
    after (Answered-SystemReach s) (creates env from_env cfg d)
Answered-SystemReach (withdrawn os next order env cfg {d = d} s) =
    after (Answered-SystemReach s) (deletes os next order env cfg d)
Answered-SystemReach (requested os next order conn {d = d} s) =
    after (Answered-SystemReach s) (requests os next order d conn)
Answered-SystemReach (ended os next order conn {d = d} s) =
    after (Answered-SystemReach s) (closes os next order d conn)

module _ (names : SdkNames) (composite : Composite) (passing : IsPassing composite) where
  services :
      {h : List AgentCall} {d : NsmEndpointDescriptor}
      → Answered names composite h d
      → AllServices IsValid d.ep_demux.endpoints
  services s =
      (SystemReach-IsSound names composite (IsPassing-IsTransparent composite passing)
        (Answered-SystemReach s)).services

  -- After any calls of the agent and of NSM, the network services that the agent has registered, with
  -- the index of each of their clients, are what these calls with these answers make of none. A `Create`
  -- without an error offers its service, with no clients, and with an error changes nothing. The
  -- deletion of an endpoint without an error withdraws its service; with an error the service stays, and
  -- some of its clients may be gone. A call for a service that is not registered is refused; for one that
  -- is, it has the effect that the allocation of indexes promises for the client. No other service
  -- changes. The composite of the SDK hands the calls on to the endpoint, or refuses them.
  pub registry_refines :
      (h : List AgentCall) (d : NsmEndpointDescriptor)
      → Answered names composite h d
      → RegistryRuns h (viewed d.ep_demux.endpoints)
  unfolding viewed lookup new_nsm_endpoint_descriptor new_nsm_endpoint_demux delete_nse
  registry_refines _ _ (starts injected) = empty
  registry_refines _ _ (offered env from_env cfg {d = d} s) =
      next_call _ (registry_refines _ d s) (create_refines names env from_env cfg d)
  registry_refines _ _ (withdrawn os next order env cfg {d = d} s) =
      next_call _ (registry_refines _ d s) (
        rw ep_demux-publish (
          delete_endpoint_refines names composite passing os next order d.ep_demux env
            cfg.network_service))
  registry_refines _ _ (requested os next order conn {d = d} s) =
      next_call _ (registry_refines _ d s)
        (demux_request_refines names composite passing os next order d.ep_demux (services s) conn)
  registry_refines _ _ (ended os next order conn {d = d} s) =
      next_call _ (registry_refines _ d s)
        (demux_close_refines names composite passing os next order d.ep_demux (services s) conn)
