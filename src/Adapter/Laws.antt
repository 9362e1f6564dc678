-- ===== src/Adapter/Laws.antt =====
-- What gets through the adapters.
use cnf_nsm.Common.{◌≡◌, refl, ap, List, [], ◌∷◌, Option, Bytes, arith, inl, inr}
use cnf_nsm.Proto.{NetworkServiceClient, NetworkServiceEndpoint}
use cnf_nsm.Errors.{ok, Result-cases}
use cnf_nsm.External.{Os, SdkNames, NsConfiguration}
use cnf_nsm.ClientDescriptor.{NsmClientMetadata, NsmClientDescriptor, ClientSdk}
use cnf_nsm.ClientDescriptor
use cnf_nsm.Adapter.Values.{Message, Metadata}
use cnf_nsm.Adapter.{
  KvWithMetadata, Casts, wrap, keep_typed, correlate_with_type, without_type, adapt_create,
  adapt_delete,
}
use cnf_nsm.Adapter.Client.{
  nsm_client_casts, cast_nsm_client_value, cast_nsm_client_metadata, to_pointer, delete_pointer,
}
use cnf_nsm.Adapter.Endpoint.{
  nsm_endpoint_casts, cast_nsm_endpoint_value, cast_nsm_endpoint_metadata,
}

-- A typed value, and typed metadata, are cast back to what they are.
pub record Undoes {V M : Type 0} (casts : Casts V M) : Type 0 where
  pub value_back : (key : Bytes) (v : V) → casts.cast_value key (casts.to_message v) ≡ ok v
  pub metadata_back : (key : Bytes) (m : M) → casts.cast_metadata key (casts.to_metadata m) ≡ ok m

nsm_client_casts-Undoes : Undoes nsm_client_casts
unfolding cast_nsm_client_value cast_nsm_client_metadata
nsm_client_casts-Undoes = record { value_back = λ key v. refl; metadata_back = λ key m. refl }

nsm_endpoint_casts-Undoes : Undoes nsm_endpoint_casts
unfolding cast_nsm_endpoint_value cast_nsm_endpoint_metadata
nsm_endpoint_casts-Undoes = record { value_back = λ key v. refl; metadata_back = λ key m. refl }

module _ {V M : Type 0} (casts : Casts V M) where
  typed_again :
      Undoes casts
      → (kvs : List (KvWithMetadata V M)) → correlate_with_type casts (without_type casts kvs) ≡ kvs
  unfolding correlate_with_type without_type
  typed_again u [] = refl
  typed_again u (kv ∷ kvs) =
      rw (u.value_back kv.key kv.value, keep_typed)
        (rw (u.metadata_back kv.key kv.metadata) (ap (◌∷◌ kv) (typed_again u kvs)))

-- What a typed `Retrieve` returned, handed back by the scheduler to correlate with, reaches it again
-- unchanged: all pairs, in their order. So it is of clients and of endpoints.
pub correlate_with_type-without_type :
    (clients : List (KvWithMetadata NetworkServiceClient (Option NsmClientMetadata)))
    (endpoints : List (KvWithMetadata NetworkServiceEndpoint Metadata))
    → (correlate_with_type nsm_client_casts (without_type nsm_client_casts clients) ≡ clients)
      × (correlate_with_type nsm_endpoint_casts (without_type nsm_endpoint_casts endpoints)
          ≡ endpoints)
correlate_with_type-without_type clients endpoints = (
  typed_again nsm_client_casts nsm_client_casts-Undoes clients,
  typed_again nsm_endpoint_casts nsm_endpoint_casts-Undoes endpoints,
)

module _ (os : Os) (names : SdkNames) (sdk : ClientSdk) (from_env : NsConfiguration) where
  -- If the scheduler's `Create` of a client succeeds, then the metadata that it got is that of the
  -- client which was created, and `Delete` with it deletes that client: the casts on the way lose
  -- nothing, and no nil pointer is met.
  pub delete_created :
      (key : Bytes) (cfg : NetworkServiceClient) (d d' : NsmClientDescriptor) (metadata : Metadata)
      → (adapt_create nsm_client_casts
          (λ k c s. to_pointer (ClientDescriptor.create os names sdk from_env c s))
          key
          (Message.client cfg)
          d).0
        ≡ ok metadata
      → (m : NsmClientMetadata) × ((ClientDescriptor.create os names sdk from_env cfg d).0 ≡ ok m)
        × (adapt_delete nsm_client_casts
              (λ k c p s. delete_pointer os names sdk c p s)
              key
              (Message.client cfg)
              metadata
              d'
            ≡ ClientDescriptor.delete_client os names sdk cfg m d')
  unfolding adapt_create adapt_delete cast_nsm_client_value cast_nsm_client_metadata wrap to_pointer
      delete_pointer
  delete_created key cfg d d' metadata made =
      elim (Result-cases (ClientDescriptor.create os names sdk from_env cfg d).0) [
        | inl (e, failed) ↦ absurd (ground arith)
        | inr (m, succeeded) ↦ (m, succeeded, ground arith)
      ]
