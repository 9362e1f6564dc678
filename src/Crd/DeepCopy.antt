-- ===== src/Crd/DeepCopy.antt =====
-- plugins/crdplugin/pkg/apis/pantheontech/v1: the resource CNFConfiguration, and its deep copy. A slice is
-- a nil or the address of an array in a heap; all else of a resource is copied by value in Go, or by
-- the Kubernetes library.
pub mod Fresh
use cnf_nsm.Common.{ℕ, List, [], ◌∷◌, ◌++◌, Option, none, some, Bytes, codes, length}
use cnf_nsm.Common.Index.{get_or}

abbrev pub status_success : Bytes
status_success = codes "Success"

abbrev pub status_failure : Bytes
status_failure = codes "Failure"

-- The parts of the metadata and of the status of Kubernetes that the plugin reads or sets.
pub record ObjectMeta : Type 0 where
  pub name : Bytes
  pub namespace : Bytes

pub record Status : Type 0 where
  pub status : Bytes
  pub message : Bytes

pub record CnfConfigurationSpec : Type 0 where
  pub microservice : Bytes
  pub config_items : Option ℕ

pub record CnfConfiguration : Type 0 where
  pub type_meta : Bytes
  pub object_meta : ObjectMeta
  pub spec : CnfConfigurationSpec
  pub status : Status

-- A list of resources, with what its slice is; `none` is nil.
pub record ConfigurationsIn (Items : Type 0) : Type 0 where
  pub type_meta : Bytes
  pub list_meta : Bytes
  pub items : Option Items

-- Its slice is the address of an array of resources in the heap.
abbrev pub CnfConfigurationList : Type 0
CnfConfigurationList = ConfigurationsIn ℕ

-- The list as a client reads it from an answer into an array that nothing else has: the array itself.
abbrev pub ListedConfigurations : Type 0
ListedConfigurations = ConfigurationsIn (List CnfConfiguration)

-- Arrays by their addresses.
abbrev pub Heap : Type 0 → Type 0
Heap Item = List (List Item)

-- The arrays of configuration items, and those of resources.
pub record Heaps (Item : Type 0) : Type 0 where
  pub arrays : Heap Item
  pub lists : Heap CnfConfiguration

module _ {Item : Type 0} where
  -- `make` and `copy`
  unfoldable pub copy_items : Option ℕ → Heap Item → Option ℕ × Heap Item
  copy_items none heap = (none, heap)
  copy_items (some a) heap = (some (length heap), heap ++ get_or heap a [] ∷ [])

  unfoldable pub deep_copy_spec :
      CnfConfigurationSpec → Heap Item → CnfConfigurationSpec × Heap Item
  deep_copy_spec spec heap =
      let (a, heap') = copy_items spec.config_items heap in
      (record spec { config_items = a }, heap')

  unfoldable pub deep_copy : CnfConfiguration → Heap Item → CnfConfiguration × Heap Item
  deep_copy cnf_config heap =
      let (spec, heap') = deep_copy_spec cnf_config.spec heap in
      (record cnf_config { spec = spec }, heap')

  -- The loop over the items of a list.
  unfoldable pub deep_copy_items :
      List CnfConfiguration → Heap Item → List CnfConfiguration × Heap Item
  deep_copy_items [] heap = ([], heap)
  deep_copy_items (c ∷ cs) heap =
      let (c', heap') = deep_copy c heap in
      let (cs', heap'') = deep_copy_items cs heap' in (c' ∷ cs', heap'')

  -- The resources are copied into an array that is made for them.
  unfoldable pub deep_copy_list :
      CnfConfigurationList → Heaps Item → CnfConfigurationList × Heaps Item
  deep_copy_list l h = elim l.items [
    | none ↦ (l, h)
    | some a ↦
        let (cs, arrays) = deep_copy_items (get_or h.lists a []) h.arrays in
        (
          record l { items = some (length h.lists) },
          record { arrays = arrays; lists = h.lists ++ cs ∷ [] },
        )
  ]

  -- `DeepCopyObject` of a resource and of a list, which are nil or copied.
  unfoldable pub deep_copy_object :
      Option CnfConfiguration → Heap Item → Option CnfConfiguration × Heap Item
  deep_copy_object none heap = (none, heap)
  deep_copy_object (some c) heap = let (c', heap') = deep_copy c heap in (some c', heap')

  unfoldable pub deep_copy_list_object :
      Option CnfConfigurationList → Heaps Item → Option CnfConfigurationList × Heaps Item
  deep_copy_list_object none heap = (none, heap)
  deep_copy_list_object (some l) heap = let (l', heap') = deep_copy_list l heap in (some l', heap')
