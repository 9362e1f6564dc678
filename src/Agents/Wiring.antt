-- ===== src/Agents/Wiring.antt =====
-- How the plugins of an agent know each other.
use cnf_nsm.Common.{◌≡◌, refl, List, [], ◌∷◌, ◌++◌, some, length}
use cnf_nsm.Common.Index.{get_or}
use cnf_nsm.Agents.{
  Ref, made, Packages, etcd, local_registry, vpp_if_plugin, linux_if_plugin, new_kvdbsync,
  connect_etcd, new_vpp_agent, new_linux_agent,
}

get_or-append : (l : List Ref) (r d : Ref) → get_or (l ++ r ∷ []) (length l) d ≡ r
get_or-append [] r d = refl
get_or-append (x ∷ l) r d = get_or-append l r d

-- One plugin synchronizes an agent with its key-value store, which is etcd: the agent has it, the
-- status check reports through it, and the orchestrator watches it beside the local registry. So it is
-- for both agents; that with VPP has the plugins of the interfaces of VPP and of Linux know each other.
pub new_agent_lem :
    {V L : Type 0} (default_vpp : Packages → V) (default_linux : Packages → L) (w : Packages)
    → ((new_vpp_agent default_vpp default_linux w).0.etcd_data_sync
        ≡ (new_linux_agent default_linux w).0.etcd_data_sync)
      × ((new_vpp_agent default_vpp default_linux w).1.transport
          ≡ (new_vpp_agent default_vpp default_linux w).0.etcd_data_sync ∷ [])
      × ((new_vpp_agent default_vpp default_linux w).1.watcher
          ≡ local_registry ∷ (new_vpp_agent default_vpp default_linux w).0.etcd_data_sync ∷ [])
      × ((new_linux_agent default_linux w).1.transport
          ≡ (new_linux_agent default_linux w).0.etcd_data_sync ∷ [])
      × ((new_linux_agent default_linux w).1.watcher
          ≡ local_registry ∷ (new_linux_agent default_linux w).0.etcd_data_sync ∷ [])
      × ((new_linux_agent default_linux w).0.etcd_data_sync ≡ made (length w.key_values))
      × (get_or (new_linux_agent default_linux w).1.key_values (length w.key_values) local_registry
          ≡ etcd)
      × ((new_vpp_agent default_vpp default_linux w).1.vpp_linux_if_plugin ≡ some linux_if_plugin)
      × ((new_vpp_agent default_vpp default_linux w).1.linux_vpp_if_plugin ≡ some vpp_if_plugin)
unfolding new_vpp_agent new_linux_agent connect_etcd new_kvdbsync
new_agent_lem default_vpp default_linux w =
    (refl, refl, refl, refl, refl, refl, get_or-append w.key_values etcd local_registry, refl, refl)
