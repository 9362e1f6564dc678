-- ===== src/Adapter/Endpoint.antt =====
-- plugins/nsmplugin/descriptor/adapter/nsmendpoint.go, and the descriptor that nsm_endpoint.go hands to
-- it. The metadata of an endpoint is of the empty interface, so every cast of it succeeds.
use cnf_nsm.Common.{true, List, [], Option, none, some, Bytes}
use cnf_nsm.Proto.{NetworkServiceEndpoint}
use cnf_nsm.Errors.{Error, Result, ok, err, invalid_value_type}
use cnf_nsm.External.{SdkNames, NsConfiguration, Model}
use cnf_nsm.Endpoint.{NsmEndpoint}
use cnf_nsm.Demux.{Handlers, DemuxEnv}
use cnf_nsm.EndpointDescriptor
use cnf_nsm.EndpointDescriptor.{NsmEndpointDescriptor, nsm_endpoint_descriptor_name, validate}
use cnf_nsm.Adapter.Values.{Message, Metadata, nil}
use cnf_nsm.Adapter.{
  KvWithMetadata, Descriptor, Casts, adapt, adapt_derived_values, adapt_dependencies,
}

unfoldable pub cast_nsm_endpoint_value : Bytes → Message → Result NetworkServiceEndpoint
cast_nsm_endpoint_value key (Message.endpoint v) = ok v
cast_nsm_endpoint_value key (Message.client _) = err (invalid_value_type key)
cast_nsm_endpoint_value key (Message.other _) = err (invalid_value_type key)

unfoldable pub cast_nsm_endpoint_metadata : Bytes → Metadata → Result Metadata
cast_nsm_endpoint_metadata key metadata = ok metadata

abbrev pub nsm_endpoint_casts : Casts NetworkServiceEndpoint Metadata
nsm_endpoint_casts = record {
  cast_value = cast_nsm_endpoint_value;
  cast_metadata = cast_nsm_endpoint_metadata;
  to_message = Message.endpoint;
  to_metadata = λ m. m;
}

-- The typed pairs and descriptors.
abbrev pub NsmEndpointKvWithMetadata : Type 0
NsmEndpointKvWithMetadata = KvWithMetadata NetworkServiceEndpoint Metadata

abbrev pub TypedNsmEndpointDescriptor : Type 0
TypedNsmEndpointDescriptor = Descriptor NetworkServiceEndpoint Metadata NsmEndpointDescriptor

-- `DerivedValues` and `Dependencies` of the adapter.
unfoldable pub derived_values :
    (Bytes → NetworkServiceEndpoint → List (Bytes × Message))
    → Bytes
    → Message
    → List (Bytes × Message)
derived_values = adapt_derived_values nsm_endpoint_casts

unfoldable pub dependencies :
    (Bytes → NetworkServiceEndpoint → List Bytes) → Bytes → Message → List Bytes
dependencies = adapt_dependencies nsm_endpoint_casts

-- `Create` returns nil for the metadata.
unfoldable pub to_nil :
    Option Error × NsmEndpointDescriptor → Result Metadata × NsmEndpointDescriptor
to_nil (none, d) = (ok nil, d)
to_nil (some e, d) = (err e, d)

module _ (names : SdkNames) (h : Handlers NsmEndpoint) (env : DemuxEnv) (from_env : NsConfiguration)
    (model : Model) where
  unfoldable pub typed_descriptor : TypedNsmEndpointDescriptor
  unfolding to_nil
  typed_descriptor = record {
    name = nsm_endpoint_descriptor_name;
    key_selector = model.is_key_valid;
    value_type_name = model.proto_name;
    key_label = model.strip_key_prefix;
    nb_key_prefix = model.key_prefix;
    with_metadata = true;
    is_retriable_failure = none;
    retrieve_dependencies = [];
    value_comparator = none;
    validate = some (λ key cfg. validate cfg);
    create = some (λ key cfg d. to_nil (EndpointDescriptor.create names env from_env cfg d));
    delete = some (λ key cfg m d. EndpointDescriptor.delete_nse h env cfg d);
    update = none;
    update_with_recreate = none;
    retrieve = none;
    derived_values = none;
    dependencies = none;
  }

  unfoldable pub new_nsm_endpoint_kv_descriptor : Descriptor Message Metadata NsmEndpointDescriptor
  new_nsm_endpoint_kv_descriptor = adapt nsm_endpoint_casts typed_descriptor
