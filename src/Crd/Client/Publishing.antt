-- ===== src/Crd/Client/Publishing.antt =====
-- The status that the handler of the CRD publishes, through the client of the CRD.
use cnf_nsm.Common.{◌≡◌, refl, Option, none, some, Bytes}
use cnf_nsm.Errors.{Error, Result, ok, err}
use cnf_nsm.Crd.DeepCopy.{CnfConfiguration, deep_copy}
use cnf_nsm.Crd.Handler.{Cluster, cnf_configuration, with_status, publish_crd_status}
use cnf_nsm.Crd.Client.{
  RestClient, PantheonV1Client, cnf_configurations, new_cnf_configurations, rest_client_of, through,
  namespaced, puts, object, empty_configuration, update,
}

abbrev returned_error : Result (CnfConfiguration × Option Error) → Option Error
returned_error (ok (_, failed)) = failed
returned_error (err x) = some x

-- What an update of a resource in a namespace returns, by a client of the API server in a state.
unfoldable pub update_by :
    {W : Type 0} → Option (PantheonV1Client W) → W → Bytes → CnfConfiguration → Option Error
update_by client w namespace c = returned_error (update (cnf_configurations client namespace) c w).0

pub publish-update :
    {W Item : Type 0} (client : PantheonV1Client W) (rest : RestClient W) (w : W)
    (c : CnfConfiguration) (op_retval : Option Bytes) (s : Cluster Item)
    → client.rest_client ≡ some rest
    → (publish_crd_status (update_by (some client) w) (cnf_configuration c) op_retval s).0
      ≡ (rest.into
          (record (namespaced puts c.object_meta.namespace) {
            name = some c.object_meta.name;
            body = some (object (with_status op_retval (deep_copy c s.heap).0));
          })
          empty_configuration
          w).0.1
unfolding publish_crd_status update_by update cnf_configurations new_cnf_configurations
    rest_client_of through with_status deep_copy
publish-update client rest w c none s held = rw held refl
publish-update client rest w c (some text) s held = rw held refl
