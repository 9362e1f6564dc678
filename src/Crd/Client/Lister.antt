-- ===== src/Crd/Client/Lister.antt =====
-- plugins/crdplugin/pkg/client/listers/pantheontech/v1/cnfconfiguration.go: the lister that reads the cache
-- of an informer. The indexer is that of the Kubernetes library.
use cnf_nsm.Common.{List, [], ◌∷◌, ◌++◌, Option, none, some, Bytes, codes}
use cnf_nsm.Errors.{Error, Result, ok, err, ◌>>=◌, not_found, failed_assertion}
use cnf_nsm.Crd.DeepCopy.{CnfConfiguration}
use cnf_nsm.Crd.Handler.{CrdObject, cnf_configuration, other}

-- What the indexer answers: the objects that `ListAll` and `ListAllByNamespace` hand to the callback, with
-- their error, and the object of a key, if there is one.
pub record Indexer : Type 0 where
  pub list_all : Bytes → List CrdObject × Option Error
  pub list_all_by_namespace : Bytes → Bytes → List CrdObject × Option Error
  pub get_by_key : Bytes → Result (Option CrdObject)

pub record CnfConfigurationLister : Type 0 where
  pub indexer : Indexer

pub record CnfConfigurationNamespaceLister : Type 0 where
  pub indexer : Indexer
  pub namespace : Bytes

unfoldable pub new_cnf_configuration_lister : Indexer → CnfConfigurationLister
new_cnf_configuration_lister indexer = record { indexer = indexer }

unfoldable pub cnf_configurations : CnfConfigurationLister → Bytes → CnfConfigurationNamespaceLister
cnf_configurations s namespace = record { indexer = s.indexer; namespace = namespace }

-- The assertion of the type of an object, which panics.
unfoldable pub asserted : CrdObject → Result CnfConfiguration
asserted (cnf_configuration c) = ok c
asserted (other _) = err failed_assertion

-- The callback, on the objects in their order.
unfoldable pub append_all : List CrdObject → List CnfConfiguration → Result (List CnfConfiguration)
append_all [] ret = ok ret
append_all (m ∷ ms) ret = asserted m >>= λ c. append_all ms (ret ++ c ∷ [])

unfoldable pub listed :
    List CrdObject × Option Error → Result (List CnfConfiguration × Option Error)
listed (ms, failed) = append_all ms [] >>= λ ret. ok (ret, failed)

unfoldable pub list : CnfConfigurationLister → Bytes → Result (List CnfConfiguration × Option Error)
unfolding listed
list s selector = listed (s.indexer.list_all selector)

unfoldable pub list_namespace :
    CnfConfigurationNamespaceLister → Bytes → Result (List CnfConfiguration × Option Error)
unfolding listed
list_namespace s selector = listed (s.indexer.list_all_by_namespace s.namespace selector)

-- `Resource` of plugins/crdplugin/pkg/apis/pantheontech/v1/register.go
unfoldable pub resource : Bytes → Bytes × Bytes
resource name = (codes "pantheon.tech", name)

unfoldable pub present : Bytes → Option CrdObject → Result CnfConfiguration
unfolding resource
present name none =
    let (group, kind) = resource (codes "cnfconfiguration") in err (not_found group kind name)
present name (some obj) = asserted obj

unfoldable pub get : CnfConfigurationNamespaceLister → Bytes → Result CnfConfiguration
unfolding present
get s name = s.indexer.get_by_key (s.namespace ++ codes "/" ++ name) >>= present name
