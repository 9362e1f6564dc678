-- ===== src/Tests/Crds.antt =====
-- Witnesses for the CRD plugin.
use cnf_nsm.Common.{◌≡◌, [], ◌∷◌, Option, none, some, Bytes, codes, ℕ, arith}
use cnf_nsm.Errors.{Error}
use cnf_nsm.Crd.DeepCopy.{CnfConfiguration, CnfConfigurationList, Heap, Heaps, deep_copy_list}
use cnf_nsm.Crd.DeepCopy.Fresh.{IsDeepCopy, contents, overwrite, deep_copy_list_lem}
use cnf_nsm.Crd.Handler.{Cluster, cnf_configuration, publish_crd_status}
use cnf_nsm.Crd.Handler.Publish.{status_of, publish_crd_status_lem}

abbrev resource : CnfConfiguration
resource = record {
  type_meta = codes "CNFConfiguration";
  object_meta = record { name = codes "r"; namespace = codes "default" };
  spec = record { microservice = codes "cnf"; config_items = some 0 };
  status = record { status = []; message = [] };
}

abbrev two_resources : CnfConfigurationList
two_resources = record { type_meta = codes "CNFConfigurationList"; list_meta = []; items = some 0 }

abbrev one_array : Heap ℕ
one_array = (7 ∷ 8 ∷ []) ∷ []

abbrev one_list : Heaps ℕ
one_list = record {
  arrays = one_array;
  lists =
      (resource ∷ record resource { spec = record { microservice = []; config_items = none } } ∷ [])
      ∷ [];
}

deep_copy_list_lem_example :
    IsDeepCopy one_list two_resources (deep_copy_list two_resources one_list)
deep_copy_list_lem_example =
    deep_copy_list_lem two_resources one_list (omega arith) (omega arith, (tt, tt))

abbrev quiet : Bytes → CnfConfiguration → Option Error
quiet namespace c = none

abbrev cluster : Cluster ℕ
cluster = record { heap = one_array; updates = [] }

publish_crd_status_lem_example :
    (published : CnfConfiguration) × ((publish_crd_status quiet
        (cnf_configuration resource)
        none
        cluster).0
      ≡ quiet resource.object_meta.namespace published)
    × ((publish_crd_status quiet (cnf_configuration resource) none cluster).1.updates
        ≡ (resource.object_meta.namespace, published) ∷ cluster.updates)
    × ((published.status.status, published.status.message) ≡ status_of none resource.status.message)
    × (contents
          (publish_crd_status quiet (cnf_configuration resource) none cluster).1.heap
          (record published { status = resource.status })
        ≡ contents cluster.heap resource)
    × (contents
          (overwrite
            (publish_crd_status quiet (cnf_configuration resource) none cluster).1.heap
            published.spec.config_items
            (9 ∷ []))
          resource
        ≡ contents cluster.heap resource)
publish_crd_status_lem_example =
    publish_crd_status_lem quiet resource none cluster (9 ∷ []) (omega arith)
