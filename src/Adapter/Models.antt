-- ===== src/Adapter/Models.antt =====
-- The models of proto/nsm/keys.go, by which ligato knows the keys of clients and of endpoints. The registry
-- of models, with a state `R`, is that of ligato.
pub mod Disjoint
use cnf_nsm.Common.{
  ◌≡◌, refl, sym, ◌∙◌, ap, Bool, true, false, List, [], ◌∷◌, ◌++◌, Option, none, some, Bytes, codes,
  append_assoc, Bool-cases, inl, inr, arith,
}
use cnf_nsm.Proto.{NetworkServiceClient, NetworkServiceEndpoint, default_interface}
use cnf_nsm.Errors.{Error, Result, ok, err}
use cnf_nsm.External.{Os, SdkNames, NsConfiguration, Model}
use cnf_nsm.Endpoint.{NsmEndpoint}
use cnf_nsm.ClientDescriptor.{ClientSdk}
use cnf_nsm.Demux.{Handlers, DemuxEnv}
use cnf_nsm.Adapter.Values.{Message}
use cnf_nsm.Adapter.{Descriptor, adapt}
use cnf_nsm.Adapter.Client
use cnf_nsm.Adapter.Client.{new_nsm_client_kv_descriptor}
use cnf_nsm.Adapter.Endpoint
use cnf_nsm.Adapter.Endpoint.{new_nsm_endpoint_kv_descriptor}

pub record Spec : Type 0 where
  pub module_name : Bytes
  pub version : Bytes
  pub type : Bytes

pub data ModelOption : Type 0 where
  with_name_template : Bytes → ModelOption

-- What the models of ligato do: a message is registered for its type, and has a key by its model. What
-- panics is an error.
pub record ModelsLibrary (R : Type 0) : Type 0 where
  pub register : Message → Spec → List ModelOption → R → Result Model × R
  pub key : Message → R → Result Bytes

abbrev pub module_name : Bytes
module_name = codes "cnf.nsm"

-- The zero values of the messages.
abbrev pub empty_client : NetworkServiceClient
empty_client = record {
  name = [];
  network_service = [];
  outgoing_labels = [];
  interface_name = [];
  interface_type = default_interface;
  ip_addresses = [];
  phys_address = [];
}

abbrev pub empty_endpoint : NetworkServiceEndpoint
empty_endpoint = record {
  network_service = [];
  advertised_labels = [];
  single_client = false;
  interface_name_prefix = [];
  interface_name_suffix_from_label = [];
  interface_type = default_interface;
  ip_addresses = [];
  phys_address = [];
}

abbrev pub client_spec : Spec
client_spec = record { module_name = module_name; version = codes "v1"; type = codes "client" }

abbrev pub endpoint_spec : Spec
endpoint_spec = record { module_name = module_name; version = codes "v1"; type = codes "endpoint" }

module _ {R : Type 0} (library : ModelsLibrary R) where
  unfoldable pub model_nsm_client : R → Result Model × R
  model_nsm_client r = library.register (Message.client empty_client) client_spec [] r

  unfoldable pub model_nsm_endpoint : R → Result Model × R
  model_nsm_endpoint r =
      library.register (Message.endpoint empty_endpoint) endpoint_spec
        (with_name_template (codes "{{.NetworkService}}") ∷ []) r

  unfoldable pub client_key : R → Result Bytes
  client_key r = library.key (Message.client empty_client) r

  unfoldable pub endpoint_key : R → Result Bytes
  endpoint_key r = library.key (Message.endpoint empty_endpoint) r

  -- What ligato documents of a model: the keys that are valid for it begin with a text for its module and
  -- its version, and go on with its type and a slash.
  pub record IsKeyed : Type 0 where
    pub root : Bytes → Bytes → Bytes
    pub valid_key :
        (message : Message) (spec : Spec) (options : List ModelOption) (r : R) (model : Model)
        (key : Bytes)
        → (library.register message spec options r).0 ≡ ok model
        → model.is_key_valid key ≡ true
        → (name : Bytes) × (key
            ≡ root spec.module_name spec.version ++ (spec.type ++ (codes "/" ++ name)))
