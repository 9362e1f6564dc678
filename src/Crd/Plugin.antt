-- ===== src/Crd/Plugin.antt =====
-- plugins/crdplugin/plugin_impl_crd.go and options.go: the plugin that runs the controller of the CRD once
-- etcd is connected.
pub mod Wired
pub mod Running
use cnf_nsm.Common.{
  or_else, ℕ, suc, ◌*◌, Bool, true, false, List, [], ◌∷◌, Option, none, some, Bytes, codes,
}
use cnf_nsm.Errors.{
  Error, Result, ok, err, kube_config_failed, crd_client_failed, api_client_failed, nil_dereference,
}
use cnf_nsm.Informers.{new_shared_informer_factory}
use cnf_nsm.Informers.Configurations.{
  CacheLibrary, Factory, informer, pantheon, v1, cnf_configurations,
}
use cnf_nsm.Crd.Client.{RestClient}
use cnf_nsm.Crd.Client.Config.{RestConfig, KubeLibrary, new_for_config}
use cnf_nsm.Crd.Controller.{Clients, v1_client, CrdController, new_controller}

-- The configuration of a plugin, by the name of the plugin and of the flag with its default and its
-- usage; `verbose` is the default of the flag beside it.
pub record PluginConfig : Type 0 where
  pub name : Bytes
  pub flag : Bytes
  pub default_path : Bytes
  pub usage : Bytes
  pub verbose : Bool

abbrev pub config_flag_name : Bytes
config_flag_name = codes "kube-config"

abbrev pub kube_config_admin : Bytes
kube_config_admin = codes "/etc/kubernetes/admin.conf"

abbrev pub kube_config_usage : Bytes
kube_config_usage =
    codes "Path to the kubeconfig file to use for the client connection to K8s cluster"

-- In nanoseconds.
abbrev pub k8s_resync_interval : ℕ
k8s_resync_interval = 10 * 60 * 1000000000

-- What the flags and the libraries of Kubernetes answer to `Init`. `text` is the text of an error.
pub record InitEnv (Q L W D A : Type 0) : Type 0 where
  pub verbose_flag : Bool
  pub config_name : Option PluginConfig → Bytes
  pub build_config_from_flags : Bytes → Result (RestConfig Q L)
  pub kube : KubeLibrary Q L (RestClient W) D
  pub new_api_client : RestConfig Q L → Result A
  pub text : Error → Bytes

-- `ctx` is nil before `Init`, and tells whether it is cancelled; `log` is named, and `etcd` tells whether
-- it is set. `callbacks` counts those that etcd calls when it is connected, `running` the goroutines
-- started to run the controller.
pub record Plugin (W D A I : Type 0) : Type 0 where
  pub plugin_name : Bytes
  pub etcd : Bool
  pub log : Option Bytes
  pub kube_config : Option PluginConfig
  pub ctx : Option Bool
  pub verbose : Bool
  pub crd_client : Option (Clients W D)
  pub apiclientset : Option A
  pub shared_factory : Option (Factory W I)
  pub cnf_config_controller : Option (CrdController W D A I)
  pub callbacks : ℕ
  pub running : ℕ

module _ {W D A I : Type 0} where
  abbrev pub named_plugin : Plugin W D A I
  named_plugin = record {
    plugin_name = codes "crd";
    etcd = true;
    log = none;
    kube_config = none;
    ctx = none;
    verbose = false;
    crd_client = none;
    apiclientset = none;
    shared_factory = none;
    cnf_config_controller = none;
    callbacks = 0;
    running = 0;
  }

  unfoldable pub apply_options :
      List (Plugin W D A I → Plugin W D A I) → Plugin W D A I → Plugin W D A I
  apply_options [] p = p
  apply_options (o ∷ opts) p = apply_options opts (o p)

  unfoldable pub new_plugin : List (Plugin W D A I → Plugin W D A I) → Plugin W D A I
  new_plugin opts =
      let p = apply_options opts named_plugin in
      record p {
        log = some (or_else p.log p.plugin_name);
        kube_config = some (
            or_else p.kube_config (record {
              name = p.plugin_name;
              flag = config_flag_name;
              default_path = kube_config_admin;
              usage = kube_config_usage;
              verbose = false;
            }));
      }

  unfoldable pub default_plugin : Plugin W D A I
  default_plugin = new_plugin []

  -- The callback changes the dependencies of the plugin.
  unfoldable pub use_deps : (Plugin W D A I → Plugin W D A I) → Plugin W D A I → Plugin W D A I
  use_deps cb p = cb p

  -- Each step of `Init` leaves its traces, also where a later step fails.
  unfoldable pub init :
      {Q L : Type 0} → InitEnv Q L W D A → Plugin W D A I → Option Error × Plugin W D A I
  init env p =
      let p1 = record p { ctx = some false; verbose = env.verbose_flag } in
      elim (env.build_config_from_flags (env.config_name p.kube_config)) [
        | err e ↦ (some (kube_config_failed (env.text e)), p1)
        | ok config ↦ elim (new_for_config env.kube config) [
          | err e ↦ (some (crd_client_failed (env.text e)), record p1 { crd_client = none })
          | ok c ↦
              let p2 = record p1 { crd_client = some c } in
              elim (env.new_api_client config) [
                | err e ↦ (some (api_client_failed (env.text e)), record p2 { apiclientset = none })
                | ok a ↦ (
                  none,
                  record p2 {
                    apiclientset = some a;
                    shared_factory =
                        some (new_shared_informer_factory (v1_client c) k8s_resync_interval);
                    callbacks = suc p2.callbacks;
                  },
                )
              ]
        ]
      ]

  -- To call a cancel function that is nil panics.
  unfoldable pub close : Plugin W D A I → Option Error × Plugin W D A I
  close p = elim p.ctx [
    | none ↦ (some nil_dereference, p)
    | some _ ↦ (none, record p { ctx = some true })
  ]

  -- `cache` is the library of the informers, `validation` that of the resource, and `controller_init`
  -- the `Init` of the controller.
  module _ {G : Type 0} (cache : CacheLibrary W I G) (validation : Bytes)
      (controller_init : CrdController W D A I → Option Error) where
    with_factory : Option (Factory W I) → Plugin W D A I → Option Error × Plugin W D A I
    with_factory none p = (some nil_dereference, p)
    with_factory (some f) p =
        let (cnf_config_informer, f') = informer cache (cnf_configurations (v1 (pantheon f))) f in
        let controller =
          new_controller validation p.etcd p.crd_client p.apiclientset cnf_config_informer in
        (
          controller_init controller,
          record p { shared_factory = some f'; cnf_config_controller = some controller },
        )

    -- A factory that is nil panics.
    unfoldable pub initialize_crds : Plugin W D A I → Option Error × Plugin W D A I
    unfolding with_factory
    initialize_crds p = with_factory p.shared_factory p

    unfoldable pub on_etcd_connect : Plugin W D A I → Option Error × Plugin W D A I
    on_etcd_connect p =
        let (e, p') = initialize_crds p in
        elim e [ some x ↦ (some x, p') | none ↦ (none, record p' { running = suc p'.running }) ]
