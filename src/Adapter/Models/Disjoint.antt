-- ===== src/Adapter/Models/Disjoint.antt =====
-- The keys that the two descriptors select.
use mathlib.Core.List.{append_cancel_left}
use cnf_nsm.Common.{◌≡◌, sym, ◌∙◌, true, false, ◌++◌, Bytes, codes, Bool-cases, inl, inr, arith}
use cnf_nsm.Errors.{ok}
use cnf_nsm.External.{Os, SdkNames, NsConfiguration, Model}
use cnf_nsm.Endpoint.{NsmEndpoint}
use cnf_nsm.ClientDescriptor.{ClientSdk}
use cnf_nsm.Demux.{Handlers, DemuxEnv}
use cnf_nsm.Adapter.{adapt}
use cnf_nsm.Adapter.Client
use cnf_nsm.Adapter.Client.{new_nsm_client_kv_descriptor}
use cnf_nsm.Adapter.Endpoint
use cnf_nsm.Adapter.Endpoint.{new_nsm_endpoint_kv_descriptor}
use cnf_nsm.Adapter.Models.{
  ModelsLibrary, model_nsm_client, model_nsm_endpoint, IsKeyed, client_spec, endpoint_spec,
  module_name,
}

module _ {R : Type 0} (library : ModelsLibrary R) (keyed : IsKeyed library) (os : Os)
    (names : SdkNames) (sdk : ClientSdk) (h : Handlers NsmEndpoint) (env : DemuxEnv)
    (from_env : NsConfiguration) where
  -- No key is selected by both descriptors, each with the model that its message was registered under: the
  -- scheduler hands an item to one of them at most. The models are documented to have keys that begin
  -- with a text for the module and the version, the type and a slash.
  pub key_selector_disjoint :
      (r r' : R) (clients endpoints : Model) (key : Bytes)
      → (model_nsm_client library r).0 ≡ ok clients
      → (model_nsm_endpoint library r').0 ≡ ok endpoints
      → (new_nsm_client_kv_descriptor os names sdk from_env clients).key_selector key ≡ true
      → (new_nsm_endpoint_kv_descriptor names h env from_env endpoints).key_selector key ≡ false
  unfolding new_nsm_client_kv_descriptor new_nsm_endpoint_kv_descriptor adapt
      Client.typed_descriptor Endpoint.typed_descriptor model_nsm_client model_nsm_endpoint
  key_selector_disjoint r r' clients endpoints key made made' selected =
      elim (Bool-cases (endpoints.is_key_valid key)) [
        | inr other ↦ other
        | inl both ↦
            let (a, at_client) = keyed.valid_key _ client_spec _ r clients key made selected in
            let (b, at_endpoint) = keyed.valid_key _ endpoint_spec _ r' endpoints key made' both in
            let same : codes "client" ++ (codes "/" ++ a) ≡ codes "endpoint" ++ (codes "/" ++ b) =
              append_cancel_left (keyed.root module_name (codes "v1")) _ _
                (sym at_client ∙ at_endpoint) in
            absurd (ground arith)
      ]
