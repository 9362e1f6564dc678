-- ===== src/Informers/Configurations.antt =====
-- The informers of CNF configurations: pantheontech/v1/cnfconfiguration.go, pantheontech/v1/interface.go,
-- pantheontech/interface.go and generic.go of
-- plugins/crdplugin/pkg/client/informers/externalversions. A clientset goes by its `PantheonV1`, the only
-- part of it that they use. The cache of the Kubernetes library is a
-- parameter; the shared factory, which the informers point to, is passed along.
use cnf_nsm.Common.{ℕ, ◌&&◌, [], ◌∷◌, List, Option, none, some, Bytes, codes, str_eq, if◌then◌else◌}
use cnf_nsm.Errors.{Result, ok, err, no_informer}
use cnf_nsm.Crd.DeepCopy.{ListedConfigurations}
use cnf_nsm.Crd.Client.{ListOptions}
use cnf_nsm.Crd.Client.Interface.{Answer, PantheonV1Interface}
use cnf_nsm.Crd.Client.Lister.{Indexer, CnfConfigurationLister, new_cnf_configuration_lister}
use cnf_nsm.Informers.{SharedInformerFactory, informer_for}

pub record ListWatch (W : Type 0) : Type 0 where
  pub list_func : ListOptions → W → Answer ListedConfigurations × W
  pub watch_func : ListOptions → W → Result (Result Bytes) × W

-- What the Kubernetes library does. The type of the objects goes by its name, the indexers by theirs.
pub record CacheLibrary (W I G : Type 0) : Type 0 where
  pub new_shared_index_informer : ListWatch W → Bytes → ℕ → List Bytes → I
  pub get_indexer : I → Indexer
  pub new_generic_lister : Indexer → Bytes × Bytes → G

-- The options are changed in place.
abbrev pub TweakListOptionsFunc : Type 0
TweakListOptionsFunc = ListOptions → ListOptions

-- The function may be nil.
abbrev pub TweakListOptions : Type 0
TweakListOptions = Option TweakListOptionsFunc

unfoldable pub tweaked : TweakListOptions → ListOptions → ListOptions
tweaked none options = options
tweaked (some tweak) options = tweak options

-- What a group, a version and an informer of the source hold beside the factory.
pub record Scope : Type 0 where
  pub namespace : Bytes
  pub tweak_list_options : TweakListOptions

pub record GenericInformer (I : Type 0) : Type 0 where
  pub informer : I
  pub resource : Bytes × Bytes

abbrev pub configuration_type : Bytes
configuration_type = codes "v1.CNFConfiguration"

abbrev pub namespace_index : Bytes
namespace_index = codes "namespace"

abbrev pub Factory : Type 0 → Type 0 → Type 0
Factory W I = SharedInformerFactory (PantheonV1Interface W) TweakListOptionsFunc I

unfoldable pub list_watch :
    {W : Type 0} → PantheonV1Interface W → Bytes → TweakListOptions → ListWatch W
list_watch client namespace tweak = record {
  list_func = λ options. (client.cnf_configurations namespace).list (tweaked tweak options);
  watch_func = λ options. (client.cnf_configurations namespace).watch (tweaked tweak options);
}

-- `Pantheon`, `V1` and `CNFConfigurations`
unfoldable pub pantheon : {W I : Type 0} → Factory W I → Scope
pantheon f = record { namespace = f.namespace; tweak_list_options = f.tweak_list_options }

unfoldable pub v1 : Scope → Scope
v1 g = record { namespace = g.namespace; tweak_list_options = g.tweak_list_options }

unfoldable pub cnf_configurations : Scope → Scope
cnf_configurations v = record { namespace = v.namespace; tweak_list_options = v.tweak_list_options }

module _ {W I G : Type 0} (cache : CacheLibrary W I G) where
  unfoldable pub new_filtered_cnf_configuration_informer :
      PantheonV1Interface W → Bytes → ℕ → List Bytes → TweakListOptions → I
  new_filtered_cnf_configuration_informer client namespace resync_period indexers tweak =
      cache.new_shared_index_informer (list_watch client namespace tweak) configuration_type
        resync_period indexers

  unfoldable pub new_cnf_configuration_informer : PantheonV1Interface W → Bytes → ℕ → List Bytes → I
  new_cnf_configuration_informer client namespace resync_period indexers =
      new_filtered_cnf_configuration_informer client namespace resync_period indexers none

  unfoldable pub default_informer : Scope → PantheonV1Interface W → ℕ → I
  default_informer f client resync_period =
      new_filtered_cnf_configuration_informer client f.namespace resync_period
        (namespace_index ∷ []) f.tweak_list_options

  -- `Informer` and `Lister`
  unfoldable pub informer : Scope → Factory W I → I × Factory W I
  informer f factory = informer_for (default_informer f) configuration_type factory

  unfoldable pub lister : Scope → Factory W I → CnfConfigurationLister × Factory W I
  lister f factory =
      let (i, factory') = informer f factory in
      (new_cnf_configuration_lister (cache.get_indexer i), factory')

  -- `Informer` and `Lister` of a generic informer
  unfoldable pub generic_informer : GenericInformer I → I
  generic_informer f = f.informer

  unfoldable pub generic_lister : GenericInformer I → G
  generic_lister f = cache.new_generic_lister (cache.get_indexer (generic_informer f)) f.resource

  -- The switch over the resource, which is a group, a version and a name.
  unfoldable pub for_resource :
      Bytes × Bytes × Bytes → Factory W I → Result (GenericInformer I) × Factory W I
  for_resource (group, version, resource) f =
      let (i, f') = informer (cnf_configurations (v1 (pantheon f))) f in
      if str_eq group (codes "pantheon.tech")
        && str_eq version (codes "v1")
        && str_eq resource (codes "cnfconfigurations")
      then (ok (record { informer = i; resource = (group, resource) }), f')
      else (err (no_informer group version resource), f)
