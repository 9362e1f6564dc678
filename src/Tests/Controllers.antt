-- ===== src/Tests/Controllers.antt =====
-- Witnesses for the plugin of the CRD.
use cnf_nsm.Common.{◌≡◌, ◌≢◌, refl, true, [], Option, none, some, Bytes, codes, arith}
use cnf_nsm.Errors.{Error, ok}
use cnf_nsm.Crd.Client.{RestClient, resource_name}
use cnf_nsm.Crd.Client.Config.{
  KubeLibrary, scheme_group_version, new_for_config, rate_limited, new_pantheon_for_config,
  set_config_defaults,
}
use cnf_nsm.Informers.Configurations.{ListWatch}
use cnf_nsm.Crd.Controller.{Clients, CrdController, v1_client}
use cnf_nsm.Crd.Plugin.{
  InitEnv, Plugin, new_plugin, default_plugin, apply_options, init, on_etcd_connect,
  initialize_crds,
}
use cnf_nsm.Crd.Plugin.Wired.{initialized, connects}
use cnf_nsm.Crd.Plugin.Running.{running_lem}
use cnf_nsm.Tests.Factories.{sample_cache, any_options}
use cnf_nsm.Tests.KubeClients.{sample_config}

abbrev silent_rest : RestClient (Unit {0})
silent_rest = record {
  into = λ r o w. ((o, none), w);
  into_list = λ r l w. ((l, none), w);
  error = λ r w. (none, w);
  watch = λ r w. (ok (codes "w"), w);
}

abbrev silent_kube : KubeLibrary Bytes Bytes (RestClient (Unit {0})) Bytes
silent_kube = record {
  rate_is_positive = λ q. true;
  new_token_bucket_rate_limiter = λ q burst. codes "bucket";
  default_kubernetes_user_agent = codes "agent";
  without_conversion = codes "plain";
  rest_client_for = λ c. ok silent_rest;
  new_discovery_client_for_config = λ c. ok (codes "discovery");
  new_discovery_client = λ r. codes "discovery";
}

abbrev kube_env : InitEnv Bytes Bytes (Unit {0}) Bytes Bytes
kube_env = record {
  verbose_flag = true;
  config_name = λ config. codes "/etc/kubernetes/admin.conf";
  build_config_from_flags = λ path. ok sample_config;
  kube = silent_kube;
  new_api_client = λ config. ok (codes "extensions");
  text = λ e. [];
}

abbrev Sample : Type 0
Sample = Plugin (Unit {0}) Bytes Bytes (ListWatch (Unit {0}))

abbrev first_plugin : Sample
first_plugin = default_plugin

abbrev accepts : CrdController (Unit {0}) Bytes Bytes (ListWatch (Unit {0})) → Option Error
accepts controller = none

abbrev started_plugin : Sample
started_plugin =
    (on_etcd_connect sample_cache (codes "schema") accepts (init kube_env first_plugin).1).1

one_callback : (init kube_env first_plugin).1.callbacks ≢ 0
unfolding init default_plugin new_plugin apply_options new_for_config rate_limited
    new_pantheon_for_config set_config_defaults
one_callback h = omega arith

runs_once : started_plugin.running ≢ 0
unfolding init default_plugin new_plugin apply_options on_etcd_connect initialize_crds
    new_for_config rate_limited new_pantheon_for_config set_config_defaults
runs_once h = omega arith

running_lem_example :
    ((init kube_env first_plugin).0 ≡ none)
    × (c : Clients (Unit {0}) Bytes) × (controller : CrdController
        (Unit {0})
        Bytes
        Bytes
        (ListWatch (Unit {0})))
    × (started_plugin.crd_client ≡ some c)
    × (started_plugin.cnf_config_controller ≡ some controller)
    × (controller.event_handler.informer ≡ controller.informer)
    × (controller.informer.list_func any_options tt
        ≡ ((v1_client c).cnf_configurations []).list any_options tt)
    × (controller.event_handler.handler.crd_client ≡ some c)
    × ((controller.spec.group, controller.spec.version) ≡ scheme_group_version)
    × (controller.spec.plural ≡ resource_name)
unfolding default_plugin new_plugin apply_options
running_lem_example =
    running_lem sample_cache (codes "schema") (λ i. i) (λ lw type resync indexers. refl) kube_env
      first_plugin started_plugin any_options tt refl refl
      (connects accepts initialized one_callback) runs_once
