-- ===== src/Tests/Scheduling.antt =====
-- Witnesses for the descriptors as the KV scheduler has them.
use cnf_nsm.Common.{
  ◌≡◌, refl, ap, ◌∙◌, true, false, List, [], ◌∷◌, ◌++◌, none, Bytes, codes, str_eq, str_eq_iff,
}
use cnf_nsm.Errors.{Result, ok}
use cnf_nsm.External.{Model}
use cnf_nsm.Proto.{kernel_interface}
use cnf_nsm.Adapter.{adapt}
use cnf_nsm.Adapter.Client
use cnf_nsm.Adapter.Client.{new_nsm_client_kv_descriptor}
use cnf_nsm.Adapter.Endpoint.{new_nsm_endpoint_kv_descriptor}
use cnf_nsm.Adapter.Values.{Message}
use cnf_nsm.Adapter.Scheduling.{Surroundings, ScheduledCall, schedules_create}
use cnf_nsm.Adapter.Models.{
  Spec, ModelsLibrary, IsKeyed, model_nsm_client, model_nsm_endpoint, client_spec, endpoint_spec,
}
use cnf_nsm.Adapter.Models.Disjoint.{key_selector_disjoint}
use cnf_nsm.Tests.Samples.{
  sdk_names, sample_os, env_config, sample_env, sample_handlers, sample_sdk, kernel_endpoint,
  sample_client,
}

abbrev base : Bytes → Bytes → Bytes
base module_name version = codes "config/" ++ module_name ++ version

-- The only key of a model.
abbrev only_key : Spec → Bytes
only_key spec = base spec.module_name spec.version ++ (spec.type ++ (codes "/" ++ codes "x"))

abbrev model_of : Spec → Model
model_of spec = record {
  is_key_valid = λ key. str_eq key (only_key spec);
  proto_name = spec.type;
  strip_key_prefix = λ key. key;
  key_prefix = spec.type;
}

abbrev sample_models : ModelsLibrary (Unit {0})
sample_models = record {
  register = λ message spec options r. (ok (model_of spec), r);
  key = λ message r. ok [];
}

valid-only_key :
    (spec : Spec) (model : Model) (key : Bytes)
    → ◌≡◌ {A = Result Model} (ok (model_of spec)) (ok model)
    → model.is_key_valid key ≡ true
    → key ≡ only_key spec
valid-only_key spec model key made valid =
    let same : model_of spec ≡ model = cc in
    (str_eq_iff key (only_key spec)).0 (ap (λ (m : Model). m.is_key_valid key) same ∙ valid)

sample_models-IsKeyed : IsKeyed sample_models
sample_models-IsKeyed = record {
  root = base;
  valid_key = λ message spec options r model key made valid.
      (codes "x", valid-only_key spec model key made valid);
}

key_selector_disjoint_example :
    (new_nsm_endpoint_kv_descriptor sdk_names sample_handlers sample_env env_config
        (model_of endpoint_spec)).key_selector
      (only_key client_spec)
    ≡ false
unfolding model_nsm_client model_nsm_endpoint new_nsm_client_kv_descriptor adapt
    Client.typed_descriptor str_eq
key_selector_disjoint_example =
    key_selector_disjoint sample_models sample_models-IsKeyed sample_os sdk_names sample_sdk
      sample_handlers sample_env env_config tt tt (model_of client_spec) (model_of endpoint_spec)
      (only_key client_spec) refl refl refl

abbrev around : Surroundings
around = record {
  os = sample_os;
  next = none;
  order = λ e. [];
  env = sample_env;
  from_env = env_config;
}

-- The scheduler creates an endpoint, and tries to create one of a message of a client.
abbrev calls : List ScheduledCall
calls =
    schedules_create around (codes "k") (Message.endpoint kernel_endpoint)
    ∷ schedules_create around (codes "c") (Message.client (sample_client kernel_interface))
    ∷ []
