-- ===== src/Crd/Controller.antt =====
-- What plugins/crdplugin/plugin_impl_crd.go fills the controller of the CRD with, and the handler of
-- plugins/crdplugin/cnfconfig/cnfconfig_handler.go in it. A log goes by its name.
use cnf_nsm.Common.{Bool, Option, some, Bytes, codes}
use cnf_nsm.Crd.Client.{RestClient}
use cnf_nsm.Crd.Client.Interface.{PantheonV1Interface, pantheon_v1_interface}
use cnf_nsm.Crd.Client.Config.{Clientset, pantheon_v1, group_name}

-- A clientset with the REST client of the group, and discovery clients `D`.
abbrev pub Clients : Type 0 → Type 0 → Type 0
Clients W D = Clientset (RestClient W) D

-- `PantheonV1` of a clientset, whose group's client holds the REST client.
unfoldable pub v1_client : {W D : Type 0} → Clients W D → PantheonV1Interface W
v1_client c = pantheon_v1_interface (some (record { rest_client = some (pantheon_v1 c) }))

pub record Handler (W D : Type 0) : Type 0 where
  pub log : Bytes
  pub crd_client : Option (Clients W D)

-- `publish` tells whether it is the access to the store of etcd.
pub record KvdbReflector (W D I : Type 0) : Type 0 where
  pub log : Bytes
  pub publish : Bool
  pub informer : I
  pub handler : Handler W D

pub record CrdSpec : Type 0 where
  pub type_name : Bytes
  pub group : Bytes
  pub version : Bytes
  pub plural : Bytes
  pub validation : Bytes

-- `A` is the clients of the extensions of the API.
pub record CrdController (W D A I : Type 0) : Type 0 where
  pub log : Bytes
  pub api_client : Option A
  pub informer : I
  pub event_handler : KvdbReflector W D I
  pub spec : CrdSpec

-- `validation` is that of the CRD of Contiv.
unfoldable pub cnf_configuration_spec : Bytes → CrdSpec
cnf_configuration_spec validation = record {
  type_name = codes "CNFConfiguration";
  group = group_name;
  version = codes "v1";
  plural = codes "cnfconfigurations";
  validation = validation;
}

unfoldable pub new_controller :
    {W D A I : Type 0} → Bytes → Bool → Option (Clients W D) → Option A → I → CrdController W D A I
new_controller validation etcd crd_client apiclientset informer = record {
  log = codes "cnfConfigController";
  api_client = apiclientset;
  informer = informer;
  event_handler = record {
    log = codes "cnfConfigHandler";
    publish = etcd;
    informer = informer;
    handler = record { log = codes "cnfConfigHandler"; crd_client = crd_client };
  };
  spec = cnf_configuration_spec validation;
}
