-- ===== src/Crd/Client/Fake.antt =====
-- plugins/crdplugin/pkg/client/clientset/versioned/typed/pantheontech/v1/fake: the fake client of the CRD,
-- for tests. A method of it is an action of the testing library, whose `Fake` is a parameter.
use cnf_nsm.Common.{Bool, true, List, [], ◌∷◌, Option, none, some, Bytes, codes, if◌then◌else◌}
use cnf_nsm.Errors.{Error, Result, ok, err, failed_assertion}
use cnf_nsm.Crd.DeepCopy.{CnfConfiguration, ListedConfigurations}
use cnf_nsm.Crd.Client.{ListOptions, empty_configuration, empty_list}

pub data Action : Type 0 where
  get_action : Bytes → Action
  list_action : Bytes × Bytes × Bytes → ListOptions → Action
  watch_action : ListOptions → Action
  create_action update_action : CnfConfiguration → Action
  delete_action : Bytes → Action
  delete_collection_action : ListOptions → Action
  patch_action : Bytes → Bytes → Bytes → List Bytes → Action

pub data Object : Type 0 where
  configuration : CnfConfiguration → Object
  configurations : ListedConfigurations → Object

-- What the testing library answers. An action has the group, the version and the name of the resource,
-- and the namespace. A label selector is a test on a resource, whose labels are not modelled apart.
pub record Testing (W : Type 0) : Type 0 where
  pub invokes :
      Bytes × Bytes × Bytes → Bytes → Action → Object → W → (Option Object × Option Error) × W
  pub invokes_watch : Bytes × Bytes × Bytes → Bytes → Action → W → Result Bytes × W
  pub extract_label : ListOptions → Option (CnfConfiguration → Bool)

pub record FakeCnfConfigurations (W : Type 0) : Type 0 where
  pub fake : Testing W
  pub ns : Bytes

-- `CNFConfigurations` of the fake client of the group, which is its `Fake`.
unfoldable pub cnf_configurations : {W : Type 0} → Testing W → Bytes → FakeCnfConfigurations W
cnf_configurations fake namespace = record { fake = fake; ns = namespace }

abbrev pub cnf_configurations_resource : Bytes × Bytes × Bytes
cnf_configurations_resource = (codes "pantheon.tech", codes "v1", codes "cnfconfigurations")

abbrev pub cnf_configurations_kind : Bytes × Bytes × Bytes
cnf_configurations_kind = (codes "pantheon.tech", codes "v1", codes "CNFConfiguration")

-- The result of a method that returns a resource, with its error; no object is nil, and an object of
-- another type is a panic.
one_of : Option Object × Option Error → Result (Option CnfConfiguration × Option Error)
one_of (none, failed) = ok (none, failed)
one_of (some (configuration c), failed) = ok (some c, failed)
one_of (some (configurations l), failed) = err failed_assertion

-- The loop over the items.
unfoldable pub matching : (CnfConfiguration → Bool) → List CnfConfiguration → List CnfConfiguration
matching label [] = []
matching label (item ∷ items) =
    let rest = matching label items in if label item then item ∷ rest else rest

everything : Option (CnfConfiguration → Bool) → CnfConfiguration → Bool
everything none c = true
everything (some label) c = label c

-- A list with no items has a nil slice.
slice_of : List CnfConfiguration → Option (List CnfConfiguration)
slice_of [] = none
slice_of (c ∷ cs) = some (c ∷ cs)

items_of : Option (List CnfConfiguration) → List CnfConfiguration
items_of none = []
items_of (some cs) = cs

unfoldable pub filtered : (CnfConfiguration → Bool) → ListedConfigurations → ListedConfigurations
unfolding slice_of items_of
filtered label l = record {
  type_meta = [];
  list_meta = l.list_meta;
  items = slice_of (matching label (items_of l.items));
}

list_of :
    (CnfConfiguration → Bool)
    → Option Object × Option Error
    → Result (Option ListedConfigurations × Option Error)
list_of label (none, failed) = ok (none, failed)
list_of label (some (configurations l), failed) = ok (some (filtered label l), failed)
list_of label (some (configuration c), failed) = err failed_assertion

module _ {W : Type 0} (c : FakeCnfConfigurations W) where
  one : Action → W → Result (Option CnfConfiguration × Option Error) × W
  unfolding one_of
  one action w =
      let (answer, w') =
        c.fake.invokes cnf_configurations_resource c.ns action (configuration empty_configuration)
          w in
      (one_of answer, w')

  unfoldable pub get : Bytes → W → Result (Option CnfConfiguration × Option Error) × W
  unfolding one
  get name = one (get_action name)

  unfoldable pub list : ListOptions → W → Result (Option ListedConfigurations × Option Error) × W
  unfolding list_of everything
  list opts w =
      let (answer, w') =
        c.fake.invokes cnf_configurations_resource c.ns (list_action cnf_configurations_kind opts)
          (configurations empty_list) w in
      (list_of (everything (c.fake.extract_label opts)) answer, w')

  unfoldable pub watch : ListOptions → W → Result Bytes × W
  watch opts = c.fake.invokes_watch cnf_configurations_resource c.ns (watch_action opts)

  unfoldable pub create : CnfConfiguration → W → Result (Option CnfConfiguration × Option Error) × W
  unfolding one
  create cnf_configuration = one (create_action cnf_configuration)

  unfoldable pub update : CnfConfiguration → W → Result (Option CnfConfiguration × Option Error) × W
  unfolding one
  update cnf_configuration = one (update_action cnf_configuration)

  unfoldable pub delete : Bytes → W → Option Error × W
  delete name w =
      let ((_, failed), w') =
        c.fake.invokes cnf_configurations_resource c.ns (delete_action name)
          (configuration empty_configuration) w in
      (failed, w')

  unfoldable pub delete_collection : ListOptions → W → Option Error × W
  delete_collection opts w =
      let ((_, failed), w') =
        c.fake.invokes cnf_configurations_resource c.ns (delete_collection_action opts)
          (configurations empty_list) w in
      (failed, w')

  unfoldable pub patch :
      Bytes → Bytes → Bytes → List Bytes → W → Result (Option CnfConfiguration × Option Error) × W
  unfolding one
  patch name type data_of subresources = one (patch_action name type data_of subresources)
