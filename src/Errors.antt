-- ===== src/Errors.antt =====
-- The errors of the NSM plugin (plugins/nsmplugin/descriptor) and of the CRD plugin
-- (plugins/crdplugin), and results of code that may fail.
use cnf_nsm.Common.{Bytes, ◌≡◌, refl, ◌⊎◌, inl, inr}
use cnf_nsm.Proto.{ConnectionInterfaceType}

pub data Error : Type 0 where
  client_without_name client_without_network_service client_without_interface : Error
  endpoint_without_network_service endpoint_without_interface : Error
  -- `kvs.NewInvalidValueError`, with the name of the field
  invalid_value : Error → Bytes → Error
  env_not_defined : Bytes → Error
  no_suffix_label : Bytes → Error
  unsupported_interface_type : ConnectionInterfaceType → Error
  only_single_client : Error
  no_such_endpoint no_such_service : Bytes → Error
  invalid_value_type invalid_metadata_type : Bytes → Error
  -- the panic at a nil pointer
  nil_dereference : Error
  -- the panic at a value of another type
  failed_assertion : Error
  -- those of the CRD plugin, the last three with the text of the error that they wrap
  not_cnf_configuration : Error
  kube_config_failed crd_client_failed api_client_failed : Bytes → Error
  -- those of the client of the CRD: the group, the resource and the name, and the resource
  not_found : Bytes → Bytes → Bytes → Error
  burst_required : Error
  no_informer : Bytes → Bytes → Bytes → Error
  -- an error that other code returned, by its text
  external : Bytes → Error

pub data Result {ℓ} (A : Type ℓ) : Type ℓ where
  ok : A → Result A
  err : Error → Result A

infixl 5 ◌>>=◌
abbrev pub ◌>>=◌ {ℓ κ} : {A : Type ℓ} {B : Type κ} → Result A → (A → Result B) → Result B
ok a >>= f = f a
err e >>= f = err e

pub Result-cases {ℓ} :
    {A : Type ℓ} (r : Result A) → ((x : Error) × (r ≡ err x)) ⊎ ((a : A) × (r ≡ ok a))
Result-cases (err x) = inl (x, refl)
Result-cases (ok a) = inr (a, refl)
