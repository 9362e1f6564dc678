-- ===== src/EndpointDescriptor/Registry.antt =====
-- What the agent promises of its endpoints as a whole: which network services it offers, and the
-- indexes of the clients of each.
use mathlib.Core.Path.{fun_ext}
use cnf_nsm.Common.{
  Bool, true, false, refl, List, [], ◌∷◌, ◌≡◌, Option, none, some, Bytes, arith, str_eq,
  if◌then◌else◌,
}
use cnf_nsm.Common.GoMap.{GoMap, lookup}
use cnf_nsm.Proto.{NetworkServiceEndpoint}
use cnf_nsm.Endpoint.{NsmEndpoint}
use cnf_nsm.Endpoint.Allocation.{
  Allocation, Call, request_answered, close_answered, close_all_answered, Follows, indexes,
}
use cnf_nsm.Errors.{Error}
use cnf_nsm.Demux.{EndpointReg}

abbrev pub Registry : Type 0
Registry = Bytes → Option (NetworkServiceEndpoint × Allocation)

abbrev pub put : Bytes → Option (NetworkServiceEndpoint × Allocation) → Registry → Registry
put name entry r other = if str_eq name other then entry else r other

-- A call with its answer: an endpoint is created, or one is deleted, which the demultiplexer answers; or
-- the endpoint of a network service is called.
pub data AgentCall : Type 0 where
  offer_answered : NetworkServiceEndpoint → Option Error → AgentCall
  withdraw_answered : Bytes → Option Error → AgentCall
  service_answered : Bytes → Call → AgentCall

abbrev pub is_refused : Call → Bool
is_refused (request_answered k none) = false
is_refused (request_answered k (some x)) = true
is_refused (close_answered k none) = false
is_refused (close_answered k (some x)) = true
is_refused (close_all_answered ks none) = false
is_refused (close_all_answered ks (some x)) = true

-- What a call with its answer makes of the registry. An offer registers a service that has no clients; a
-- withdrawal removes one, or, with an error, closes the connections of some of its clients; a call of a
-- service changes the indexes of its clients as the allocation promises, and is refused if there is no
-- such service. All other services are as they were.
pub data RegistryFollows (r : Registry) : AgentCall → Registry → Type 0 where
  cannot_offer :
      (cfg : NetworkServiceEndpoint) (x : Error) → RegistryFollows r (offer_answered cfg (some x)) r
  offers :
      (cfg : NetworkServiceEndpoint)
      → RegistryFollows r
          (offer_answered cfg none)
          (put cfg.network_service (some (cfg, λ _. none)) r)
  withdraws :
      (name : Bytes) (registered : NetworkServiceEndpoint × Allocation)
      → r name ≡ some registered
      → RegistryFollows r (withdraw_answered name none) (put name none r)
  cannot_withdraw :
      (name : Bytes) (x : Error) (cfg : NetworkServiceEndpoint) (s t : Allocation) (ks : List Bytes)
      (answer : Option Error)
      → r name ≡ some (cfg, s)
      → Follows cfg s (close_all_answered ks answer) t
      → RegistryFollows r (withdraw_answered name (some x)) (put name (some (cfg, t)) r)
  nothing_to_withdraw :
      (name : Bytes) (x : Error)
      → r name ≡ none
      → RegistryFollows r (withdraw_answered name (some x)) r
  serves :
      (name : Bytes) (call : Call) (cfg : NetworkServiceEndpoint) (s t : Allocation)
      → r name ≡ some (cfg, s)
      → Follows cfg s call t
      → RegistryFollows r (service_answered name call) (put name (some (cfg, t)) r)
  nothing_serves :
      (name : Bytes) (call : Call)
      → r name ≡ none
      → is_refused call ≡ true
      → RegistryFollows r (service_answered name call) r

-- The registries that calls lead to, from an empty one; the latest call is the first.
pub data RegistryRuns : List AgentCall → Registry → Type 0 where
  empty : RegistryRuns [] (λ _. none)
  next_call :
      {h : List AgentCall} {r q : Registry} (c : AgentCall)
      → RegistryRuns h r
      → RegistryFollows r c q
      → RegistryRuns (c ∷ h) q

abbrev pub entry : Option (EndpointReg NsmEndpoint) → Option (NetworkServiceEndpoint × Allocation)
entry none = none
entry (some ep) = some (ep.service.cfg, indexes ep.service.connections)

-- The registry that the endpoints of a demultiplexer represent.
unfoldable pub viewed : GoMap (EndpointReg NsmEndpoint) → Registry
viewed m name = entry (lookup name m)

pub viewed_found :
    (name : Bytes) (m : GoMap (EndpointReg NsmEndpoint)) (ep : EndpointReg NsmEndpoint)
    → lookup name m ≡ some ep
    → viewed m name ≡ some (ep.service.cfg, indexes ep.service.connections)
unfolding viewed
viewed_found name m ep found = rw found refl

pub viewed_absent :
    (name : Bytes) (m : GoMap (EndpointReg NsmEndpoint))
    → lookup name m ≡ none
    → viewed m name ≡ none
unfolding viewed
viewed_absent name m absent = rw absent refl

-- One registration was replaced, or removed.
pub viewed_replaced :
    (k : Bytes) (now : Option (EndpointReg NsmEndpoint)) (m m' : GoMap (EndpointReg NsmEndpoint))
    → ((name : Bytes) → lookup name m' ≡ (if str_eq k name then now else lookup name m))
    → viewed m' ≡ put k (entry now) (viewed m)
unfolding viewed
viewed_replaced k now m m' here = fun_ext λ name. ground (arith, here name)
