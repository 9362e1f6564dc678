-- ===== src/EndpointDescriptor/Passing.antt =====
-- What the SDK documents of the composite that `Create` makes, of its monitor, its connections, its
-- addresses and the endpoint: it hands requests on to the endpoint.
use cnf_nsm.Common.{◌≡◌, sym, ap, ◌∙◌, ◌⊎◌, Option, none, some, inl, inr}
use mathlib.Core.Path.{subst}
use mathlib.Core.Option.{some-ne-none}
use cnf_nsm.Errors.{Error}
use cnf_nsm.External.{Connection}
use cnf_nsm.Endpoint.{NsmEndpoint}
use cnf_nsm.EndpointDescriptor.{Composite}
use cnf_nsm.EndpointDescriptor.System.{IsTransparent}

-- A request is refused before it reaches the endpoint, or the endpoint answers it, for a connection that
-- the composite prepared: with addresses and with the parameters of its mechanism, but with the identifier
-- and the network service that were asked for. A closing is refused, or the endpoint answers it.
pub record IsPassing (composite : Composite) : Type 0 where
  pub prepare : Connection → Connection
  pub same_id : (conn : Connection) → (prepare conn).id ≡ conn.id
  pub same_service : (conn : Connection) → (prepare conn).network_service ≡ conn.network_service
  pub request_passes :
      (f : NsmEndpoint → Connection → (Connection × Option Error) × NsmEndpoint) (e : NsmEndpoint)
      (conn : Connection)
      → ((x : Error) × (composite.request f e conn ≡ ((conn, some x), e)))
        ⊎ (composite.request f e conn ≡ f e (prepare conn))
  pub close_passes :
      (f : NsmEndpoint → Connection → Option Error × NsmEndpoint) (e : NsmEndpoint)
      (conn : Connection)
      → ((x : Error) × (composite.close f e conn ≡ (some x, e)))
        ⊎ (composite.close f e conn ≡ f e conn)

pub IsPassing-IsTransparent :
    (composite : Composite) → IsPassing composite → IsTransparent composite
IsPassing-IsTransparent composite passing = record {
  request_keeps = λ P f keeps e conn p. elim (passing.request_passes f e conn) [
    | inl (x, refused) ↦ subst (λ r. P r.1) (sym refused) p
    | inr passed ↦ subst (λ r. P r.1) (sym passed) (keeps e (passing.prepare conn) p)
  ];
  close_keeps = λ P f keeps e conn p. elim (passing.close_passes f e conn) [
    | inl (x, refused) ↦ subst (λ r. P r.1) (sym refused) p
    | inr passed ↦ subst (λ r. P r.1) (sym passed) (keeps e conn p)
  ];
}

-- A request without an error has reached the endpoint.
pub passed_request :
    (composite : Composite) (passing : IsPassing composite)
    (f : NsmEndpoint → Connection → (Connection × Option Error) × NsmEndpoint) (e : NsmEndpoint)
    (conn : Connection)
    → (composite.request f e conn).0.1 ≡ none
    → composite.request f e conn ≡ f e (passing.prepare conn)
passed_request composite passing f e conn granted = elim (passing.request_passes f e conn) [
  | inl (x, refused) ↦ absurd (
      some-ne-none x
        (ap (λ (r : (Connection × Option Error) × NsmEndpoint). r.0.1) (sym refused) ∙ granted))
  | inr passed ↦ passed
]

pub passed_close :
    (composite : Composite) (passing : IsPassing composite)
    (f : NsmEndpoint → Connection → Option Error × NsmEndpoint) (e : NsmEndpoint)
    (conn : Connection)
    → (composite.close f e conn).0 ≡ none
    → composite.close f e conn ≡ f e conn
passed_close composite passing f e conn granted = elim (passing.close_passes f e conn) [
  | inl (x, refused) ↦
      absurd (some-ne-none x (ap (λ (r : Option Error × NsmEndpoint). r.0) (sym refused) ∙ granted))
  | inr passed ↦ passed
]
