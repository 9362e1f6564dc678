-- ===== src/Crd/Client.antt =====
-- plugins/crdplugin/pkg/client/clientset/versioned/typed/pantheontech/v1/cnfconfiguration.go: the client
-- of the CRD for one namespace. A method of it is one request to the API server. The REST client of
-- the Kubernetes library is a parameter, `W` the state of what answers it.
pub mod Timeout
pub mod Requests
pub mod Parity
pub mod RateLimited
pub mod Listing
pub mod Publishing
pub mod Config
pub mod Fake
pub mod FakeClientset
pub mod Interface
pub mod Lister
use cnf_nsm.Common.{Bool, true, false, List, [], Option, none, some, Bytes, codes}
use cnf_nsm.Common.Int64.{ℤ, pos, mul_int64}
use cnf_nsm.Errors.{Error, Result, ok, err, nil_dereference}
use cnf_nsm.Crd.DeepCopy.{ObjectMeta, Status, CnfConfiguration, ListedConfigurations}

pub data Verb : Type 0 where
  gets posts puts deletes : Verb
  -- with the type of the patch
  patches : Bytes → Verb

-- The options that the client reads or sets; the selectors go to the server as they are.
pub record ListOptions : Type 0 where
  pub label_selector : Bytes
  pub field_selector : Bytes
  pub watch : Bool
  pub timeout_seconds : Option ℤ

pub data Params : Type 0 where
  get_options : Bytes → Params
  list_options : ListOptions → Params

pub data Body : Type 0 where
  object : CnfConfiguration → Body
  delete_options : Option Bytes → Body
  patch_data : Bytes → Body

-- What the calls on a request of the REST client set. A timeout is in nanoseconds.
pub record RestRequest : Type 0 where
  pub verb : Verb
  pub namespace : Bytes
  pub resource : Bytes
  pub name : Option Bytes
  pub sub_resources : List Bytes
  pub params : Option Params
  pub timeout : Option ℤ
  pub body : Option Body

-- `Into` is given the object to fill in. An answer may fill it in and yet be an error.
pub record RestClient (W : Type 0) : Type 0 where
  pub into : RestRequest → CnfConfiguration → W → (CnfConfiguration × Option Error) × W
  pub into_list : RestRequest → ListedConfigurations → W → (ListedConfigurations × Option Error) × W
  pub error : RestRequest → W → Option Error × W
  pub watch : RestRequest → W → Result Bytes × W

-- The client of the group; its REST client may be nil.
pub record PantheonV1Client (W : Type 0) : Type 0 where
  pub rest_client : Option (RestClient W)

pub record CnfConfigurations (W : Type 0) : Type 0 where
  pub client : Option (RestClient W)
  pub ns : Bytes

abbrev pub resource_name : Bytes
resource_name = codes "cnfconfigurations"

-- The zero values of the resource and of its list.
abbrev pub empty_configuration : CnfConfiguration
empty_configuration = record {
  type_meta = [];
  object_meta = record { name = []; namespace = [] };
  spec = record { microservice = []; config_items = none };
  status = record { status = []; message = [] };
}

abbrev pub empty_list : ListedConfigurations
empty_list = record { type_meta = []; list_meta = []; items = none }

unfoldable pub list_timeout : ListOptions → ℤ
list_timeout opts = elim (opts.timeout_seconds) [
  | none ↦ pos 0
  | some seconds ↦ mul_int64 seconds (pos 1000000000)
]

-- A request of the verb for the resources of the namespace.
unfoldable pub namespaced : Verb → Bytes → RestRequest
namespaced verb ns = record {
  verb = verb;
  namespace = ns;
  resource = resource_name;
  name = none;
  sub_resources = [];
  params = none;
  timeout = none;
  body = none;
}

-- A method of a nil REST client panics.
unfoldable pub through :
    {W A : Type 0} → Option (RestClient W) → (RestClient W → W → A × W) → W → Result A × W
through none call w = (err nil_dereference, w)
through (some rest) call w = let (a, w') = call rest w in (ok a, w')

module _ {W : Type 0} where
  -- A nil client has a nil REST client.
  unfoldable pub rest_client_of : Option (PantheonV1Client W) → Option (RestClient W)
  rest_client_of none = none
  rest_client_of (some c) = c.rest_client

  unfoldable pub new_cnf_configurations : Option (PantheonV1Client W) → Bytes → CnfConfigurations W
  new_cnf_configurations c namespace = record { client = rest_client_of c; ns = namespace }

  unfoldable pub cnf_configurations : Option (PantheonV1Client W) → Bytes → CnfConfigurations W
  cnf_configurations c namespace = new_cnf_configurations c namespace

  module _ (c : CnfConfigurations W) where
    unfoldable pub get : Bytes → Bytes → W → Result (CnfConfiguration × Option Error) × W
    get name options = through c.client λ rest.
        rest.into
          (record (namespaced gets c.ns) { name = some name; params = some (get_options options) })
          empty_configuration

    unfoldable pub list : ListOptions → W → Result (ListedConfigurations × Option Error) × W
    list opts = through c.client λ rest.
        rest.into_list
          (record (namespaced gets c.ns) {
            params = some (list_options opts);
            timeout = some (list_timeout opts);
          })
          empty_list

    unfoldable pub watch : ListOptions → W → Result (Result Bytes) × W
    watch opts = through c.client λ rest. rest.watch (record (namespaced gets c.ns) {
      params = some (list_options (record opts { watch = true }));
      timeout = some (list_timeout opts);
    })

    unfoldable pub create : CnfConfiguration → W → Result (CnfConfiguration × Option Error) × W
    create cnf_configuration = through c.client λ rest.
        rest.into (record (namespaced posts c.ns) { body = some (object cnf_configuration) })
          empty_configuration

    unfoldable pub update : CnfConfiguration → W → Result (CnfConfiguration × Option Error) × W
    update cnf_configuration = through c.client λ rest.
        rest.into
          (record (namespaced puts c.ns) {
            name = some cnf_configuration.object_meta.name;
            body = some (object cnf_configuration);
          })
          empty_configuration

    unfoldable pub delete : Bytes → Option Bytes → W → Result (Option Error) × W
    delete name options = through c.client λ rest. rest.error (record (namespaced deletes c.ns) {
      name = some name;
      body = some (delete_options options);
    })

    unfoldable pub delete_collection : Option Bytes → ListOptions → W → Result (Option Error) × W
    delete_collection options opts = through c.client λ rest.
        rest.error (record (namespaced deletes c.ns) {
          params = some (list_options opts);
          timeout = some (list_timeout opts);
          body = some (delete_options options);
        })

    unfoldable pub patch :
        Bytes → Bytes → Bytes → List Bytes → W → Result (CnfConfiguration × Option Error) × W
    patch name type data_of subresources = through c.client λ rest.
        rest.into
          (record (namespaced (patches type) c.ns) {
            sub_resources = subresources;
            name = some name;
            body = some (patch_data data_of);
          })
          empty_configuration
