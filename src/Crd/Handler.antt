-- ===== src/Crd/Handler.antt =====
-- plugins/crdplugin/cnfconfig/cnfconfig_handler.go: the handler that reflects CNF configurations into the
-- data store of the agents, and publishes their status.
pub mod Publish
use cnf_nsm.Common.{ℕ, Bool, true, false, List, [], ◌∷◌, Option, none, some, Bytes, codes}
use cnf_nsm.Errors.{Error, Result, ok, err, not_cnf_configuration}
use cnf_nsm.Crd.DeepCopy.{
  ObjectMeta, Status, CnfConfiguration, Heap, deep_copy, status_success, status_failure,
}

-- What the reflector hands to the handler: a resource, or a value of another type.
pub data CrdObject : Type 0 where
  cnf_configuration : CnfConfiguration → CrdObject
  other : Bytes → CrdObject

-- The resource of Contiv that the conversion is left to.
pub record CustomConfiguration : Type 0 where
  pub type_meta : Bytes
  pub object_meta : ObjectMeta
  pub microservice : Bytes
  pub config_items : Option ℕ
  pub status : Status

abbrev pub crd_name : Bytes
crd_name = codes "CNFConfiguration"

abbrev pub crd_key_prefix : Bytes × Bool
crd_key_prefix = (codes "/vnf-agent/", false)

abbrev pub is_crd_key_suffix : Bytes → Bool
is_crd_key_suffix key_suffix = true

abbrev pub is_exclusive_kvdb : Bool
is_exclusive_kvdb = true

unfoldable pub custom_configuration : CnfConfiguration → CustomConfiguration
custom_configuration cnf_config = record {
  type_meta = cnf_config.type_meta;
  object_meta = cnf_config.object_meta;
  microservice = cnf_config.spec.microservice;
  config_items = cnf_config.spec.config_items;
  status = cnf_config.status;
}

-- `contiv` is the handler of Contiv, which reads the items from the heap.
unfoldable pub crd_object_to_kv_data :
    {Item KvData : Type 0}
    → (CustomConfiguration → Heap Item → Result (List KvData))
    → CrdObject
    → Heap Item
    → Result (List KvData)
crd_object_to_kv_data contiv (other _) heap = err not_cnf_configuration
crd_object_to_kv_data contiv (cnf_configuration cnf_config) heap =
    contiv (custom_configuration cnf_config) heap

-- The heap, and the updates sent to Kubernetes with their namespaces, the latest first.
pub record Cluster (Item : Type 0) : Type 0 where
  pub heap : Heap Item
  pub updates : List (Bytes × CnfConfiguration)

-- `op_retval` is the text of the error of the operation, if it failed. A success leaves the message.
unfoldable pub with_status : Option Bytes → CnfConfiguration → CnfConfiguration
with_status none cnf_config = record cnf_config {
  status = record cnf_config.status { status = status_success };
}
with_status (some text) cnf_config = record cnf_config {
  status = record { status = status_failure; message = text };
}

module _ {Item : Type 0} (on_update : Bytes → CnfConfiguration → Option Error) where
  unfoldable pub publish_crd_status :
      CrdObject → Option Bytes → Cluster Item → Option Error × Cluster Item
  publish_crd_status (other _) op_retval s = (some not_cnf_configuration, s)
  publish_crd_status (cnf_configuration cnf_config) op_retval s =
      let (copy, heap) = deep_copy cnf_config s.heap in
      let published = with_status op_retval copy in
      let namespace = published.object_meta.namespace in
      (
        on_update namespace published,
        record s { heap = heap; updates = (namespace, published) ∷ s.updates },
      )
