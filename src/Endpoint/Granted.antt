-- ===== src/Endpoint/Granted.antt =====
-- A request that is granted.
use cnf_nsm.Common.{ℕ, ◌≡◌, refl, sym, ap, ◌∙◌, Option, none, arith, Option-cases, inl, inr}
use cnf_nsm.Errors.{Error, ok}
use cnf_nsm.External.{Os, SdkNames, Connection, InterfaceConfig}
use cnf_nsm.Endpoint.{
  NsmEndpoint, request, admit, open_with, after_request, drop_duplicate, build_interface_config,
}
use cnf_nsm.Endpoint.Invariant.{admit_cases}
use cnf_nsm.Endpoint.Kept.{cfg-drop_duplicate}
use cnf_nsm.Endpoint.Requests.{opened}

module _ (os : Os) (names : SdkNames) where
  -- A request that is granted has built a configuration and stored the connection.
  pub record IsGranted (e : NsmEndpoint) (conn : Connection) (e' : NsmEndpoint) : Type 0 where
    pub rest : NsmEndpoint
    pub same_cfg : rest.cfg ≡ e.cfg
    pub config : InterfaceConfig
    pub index : ℕ
    pub built : build_interface_config os names rest rest.cfg conn ≡ ok (config, index)
    pub left : e' ≡ opened rest conn config index

  admit-IsGranted :
      (e0 e : NsmEndpoint) (conn : Connection)
      → e.cfg ≡ e0.cfg
      → (admit os names none e conn).0.1 ≡ none
      → IsGranted e0 conn (admit os names none e conn).1
  admit-IsGranted e0 e conn same =
      admit_cases os names (λ r. r.0.1 ≡ none → IsGranted e0 conn r.1) none e conn (λ x h. cc)
        λ c i built room r h. record {
          rest = e;
          same_cfg = same;
          config = c;
          index = i;
          built = built;
          left = refl;
        }

  request_admitted :
      (e : NsmEndpoint) (conn : Connection)
      → (drop_duplicate os names e conn).0 ≡ none
      → request os names none e conn ≡ admit os names none (drop_duplicate os names e conn).1 conn
  unfolding request
  request_admitted e conn dropped = rw (dropped, request) refl

  pub request-IsGranted :
      (e : NsmEndpoint) (conn : Connection)
      → (request os names none e conn).0.1 ≡ none
      → IsGranted e conn (request os names none e conn).1
  request-IsGranted e conn h = elim (Option-cases (drop_duplicate os names e conn).0) [
    | inr (x, failed) ↦ absurd (unfold request in ground arith)
    | inl dropped ↦
        let same = request_admitted e conn dropped in
        rw same (
          admit-IsGranted e (drop_duplicate os names e conn).1 conn
            (cfg-drop_duplicate os names e conn)
            (ap (λ (r : (Connection × Option Error) × NsmEndpoint). r.0.1) (sym same) ∙ h))
  ]

  admit_answer : (e : NsmEndpoint) (conn : Connection) → (admit os names none e conn).0.0 ≡ conn
  unfolding admit open_with after_request
  admit_answer e conn = ground arith

  pub request_answer :
      (e : NsmEndpoint) (conn : Connection) → (request os names none e conn).0.0 ≡ conn
  unfolding request
  request_answer e conn = ground (arith, admit_answer (drop_duplicate os names e conn).1 conn)
