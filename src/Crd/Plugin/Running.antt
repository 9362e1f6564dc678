-- ===== src/Crd/Plugin/Running.antt =====
-- When the controller of the CRD runs, and what it reads and writes.
use cnf_nsm.Common.{◌≡◌, ◌≢◌, refl, ◌∙◌, [], List, some, none, Bytes, ℕ}
use cnf_nsm.Crd.Client.{ListOptions, resource_name}
use cnf_nsm.Crd.Client.Config.{scheme_group_version}
use cnf_nsm.Informers.Configurations.{ListWatch, CacheLibrary, tweaked}
use cnf_nsm.Informers.Scoped.{shared-list}
use cnf_nsm.Crd.Controller.{
  Clients, v1_client, CrdController, new_controller, cnf_configuration_spec,
}
use cnf_nsm.Crd.Plugin.{InitEnv, Plugin, init}
use cnf_nsm.Crd.Plugin.Wired.{Life, Life-IsWired}

module _ {Q L W D A I G : Type 0} (cache : CacheLibrary W I G) (validation : Bytes)
    (list_watch_of : I → ListWatch W)
    (reads : (lw : ListWatch W) (type : Bytes) (resync : ℕ) (indexers : List Bytes)
      → list_watch_of (cache.new_shared_index_informer lw type resync indexers) ≡ lw) where
  -- The controller of the CRD runs only if `Init` has returned no error, and then the plugin has its
  -- clients and a controller, which was made of them. The controller and the reflector in it share one
  -- informer, which lists what the client of the CRD lists in all namespaces; the handler publishes
  -- through the same clients; and the CRD is of the group, the version and the plural that the client
  -- asks for. So it is after `Init` of a plugin that has no callback and runs nothing, and any
  -- connections of etcd and calls of `Close`. An informer lists by the functions that it is made with.
  pub running_lem :
      (env : InitEnv Q L W D A) (p q : Plugin W D A I) (options : ListOptions) (w : W)
      → p.callbacks ≡ 0
      → p.running ≡ 0
      → Life cache validation env p q
      → q.running ≢ 0
      → ((init env p).0 ≡ none)
        × (c : Clients W D) × (controller : CrdController W D A I) × (q.crd_client ≡ some c)
        × (q.cnf_config_controller ≡ some controller)
        × (controller.event_handler.informer ≡ controller.informer)
        × ((list_watch_of controller.informer).list_func options w
            ≡ ((v1_client c).cnf_configurations []).list options w)
        × (controller.event_handler.handler.crd_client ≡ some c)
        × ((controller.spec.group, controller.spec.version) ≡ scheme_group_version)
        × (controller.spec.plural ≡ resource_name)
  unfolding new_controller cnf_configuration_spec tweaked
  running_lem env p q options w none_called none_runs life runs =
      let wired = Life-IsWired cache validation env p none_called none_runs life in
      let (called, r) = wired.started runs in
      let m = r.made in
      (
        (wired.called called).0,
        r.ready.c,
        r.controller,
        r.ready.crd_client,
        r.cnf_config_controller,
        rw m.made refl,
        rw m.made (
            (shared-list cache list_watch_of reads m.factory options w m.its.used).0
            ∙ rw (m.its.client, m.its.namespace, m.its.tweak) refl),
        rw m.made refl,
        rw m.made refl,
        rw m.made refl,
      )
