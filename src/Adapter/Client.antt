-- ===== src/Adapter/Client.antt =====
-- plugins/nsmplugin/descriptor/adapter/nsmclient.go, and the descriptor that nsm_client.go hands to it.
use cnf_nsm.Common.{true, [], Option, none, some, Bytes}
use cnf_nsm.Proto.{NetworkServiceClient}
use cnf_nsm.Errors.{
  Error, Result, ok, err, invalid_value_type, invalid_metadata_type, nil_dereference,
}
use cnf_nsm.External.{Os, SdkNames, NsConfiguration, Model}
use cnf_nsm.ClientDescriptor
use cnf_nsm.ClientDescriptor.{
  NsmClientMetadata, NsmClientDescriptor, nsm_client_descriptor_name, ClientSdk, validate,
}
use cnf_nsm.Adapter.Values.{Message, Metadata, nil, client_metadata}
use cnf_nsm.Adapter.{Descriptor, Casts, adapt}

unfoldable pub cast_nsm_client_value : Bytes → Message → Result NetworkServiceClient
cast_nsm_client_value key (Message.client v) = ok v
cast_nsm_client_value key (Message.endpoint _) = err (invalid_value_type key)
cast_nsm_client_value key (Message.other _) = err (invalid_value_type key)

unfoldable pub cast_nsm_client_metadata : Bytes → Metadata → Result (Option NsmClientMetadata)
cast_nsm_client_metadata key nil = ok none
cast_nsm_client_metadata key (client_metadata m) = ok m
cast_nsm_client_metadata key (Metadata.other _) = err (invalid_metadata_type key)

abbrev pub nsm_client_casts : Casts NetworkServiceClient (Option NsmClientMetadata)
nsm_client_casts = record {
  cast_value = cast_nsm_client_value;
  cast_metadata = cast_nsm_client_metadata;
  to_message = Message.client;
  to_metadata = client_metadata;
}

unfoldable pub to_pointer :
    Result NsmClientMetadata × NsmClientDescriptor
    → Result (Option NsmClientMetadata) × NsmClientDescriptor
to_pointer (ok m, d) = (ok (some m), d)
to_pointer (err e, d) = (err e, d)

module _ (os : Os) (names : SdkNames) (sdk : ClientSdk) where
  -- A nil pointer to the metadata is dereferenced before anything is done.
  unfoldable pub delete_pointer :
      NetworkServiceClient
      → Option NsmClientMetadata
      → NsmClientDescriptor
      → Option Error × NsmClientDescriptor
  delete_pointer cfg none d = (some nil_dereference, d)
  delete_pointer cfg (some m) d = ClientDescriptor.delete_client os names sdk cfg m d

module _ (os : Os) (names : SdkNames) (sdk : ClientSdk) (from_env : NsConfiguration)
    (model : Model) where
  unfoldable pub typed_descriptor :
      Descriptor NetworkServiceClient (Option NsmClientMetadata) NsmClientDescriptor
  unfolding to_pointer delete_pointer
  typed_descriptor = record {
    name = nsm_client_descriptor_name;
    key_selector = model.is_key_valid;
    value_type_name = model.proto_name;
    key_label = model.strip_key_prefix;
    nb_key_prefix = model.key_prefix;
    with_metadata = true;
    is_retriable_failure = none;
    retrieve_dependencies = [];
    value_comparator = none;
    validate = some (λ key cfg. validate cfg);
    create = some (λ key cfg d. to_pointer (ClientDescriptor.create os names sdk from_env cfg d));
    delete = some (λ key cfg m d. delete_pointer os names sdk cfg m d);
    update = none;
    update_with_recreate = none;
    retrieve = none;
    derived_values = none;
    dependencies = none;
  }

  unfoldable pub new_nsm_client_kv_descriptor : Descriptor Message Metadata NsmClientDescriptor
  new_nsm_client_kv_descriptor = adapt nsm_client_casts typed_descriptor
