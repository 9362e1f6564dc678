-- ===== src/Agents.antt =====
-- cmd/nsm-agent-vpp, cmd/nsm-agent-linux and cmd/cnf-crd: the agents, as they put plugins together. What
-- a plugin of ligato does is that library's; a plugin is told by a reference.
pub mod Wiring
use cnf_nsm.Common.{
  ℕ, suc, ◌+◌, Bool, true, false, List, [], ◌∷◌, ◌++◌, Option, none, some, Bytes, codes, length,
}
use cnf_nsm.Errors.{Error}

-- A pointer to a plugin: the `DefaultPlugin` of a package, or one that `kvdbsync.NewPlugin` made.
pub data Ref : Type 0 where
  default_plugin : Bytes → Ref
  made : ℕ → Ref

-- The variables of ligato's packages that the agents set: the transport of the status check, the watchers
-- of the orchestrator, the plugins that those of the interfaces know, what the CRD of Contiv uses, the
-- status check of etcd, and the plugins whose failure is not fatal to the probe. `key_values` has the
-- key-value stores of the plugins that were made; `resyncs` counts the calls of `DoResync`.
pub record Packages : Type 0 where
  pub key_values : List Ref
  pub transport : List Ref
  pub watcher : List Ref
  pub vpp_linux_if_plugin : Option Ref
  pub vpp_ns_plugin : Option Ref
  pub linux_vpp_if_plugin : Option Ref
  pub crd_etcd : Option Ref
  pub etcd_status_check : Option Ref
  pub non_fatal_plugins : List Bytes
  pub resyncs : ℕ

abbrev pub etcd : Ref
etcd = default_plugin (codes "etcd")

abbrev pub local_registry : Ref
local_registry = default_plugin (codes "local")

abbrev pub vpp_if_plugin : Ref
vpp_if_plugin = default_plugin (codes "vpp/ifplugin")

abbrev pub linux_if_plugin : Ref
linux_if_plugin = default_plugin (codes "linux/ifplugin")

-- `NSMAgent` of each agent, where `V` and `L` are the plugins of VPP and of Linux that the agent of ligato
-- groups.
pub record VppAgent (V L : Type 0) : Type 0 where
  pub plugin_name : Bytes
  pub log_manager : Ref
  pub vpp : V
  pub linux : L
  pub netalloc : Ref
  pub nsm_plugin : Ref
  pub orchestrator : Ref
  pub etcd_data_sync : Ref
  pub configurator : Ref
  pub rest_api : Ref
  pub probe : Ref
  pub telemetry : Ref

pub record LinuxAgent (L : Type 0) : Type 0 where
  pub plugin_name : Bytes
  pub log_manager : Ref
  pub linux : L
  pub netalloc : Ref
  pub nsm_plugin : Ref
  pub orchestrator : Ref
  pub etcd_data_sync : Ref
  pub probe : Ref

-- `kvdbsync.NewPlugin(kvdbsync.UseKV(...))`
unfoldable pub new_kvdbsync : Ref → Packages → Ref × Packages
new_kvdbsync kv w = (made (length w.key_values), record w { key_values = w.key_values ++ kv ∷ [] })

-- What both agents do first.
unfoldable pub connect_etcd : Packages → Ref × Packages
connect_etcd w =
    let (etcd_data_sync, w') = new_kvdbsync etcd w in
    (
      etcd_data_sync,
      record w' { transport = etcd_data_sync ∷ []; watcher = local_registry ∷ etcd_data_sync ∷ [] },
    )

-- `default_vpp` and `default_linux` are functions of ligato, which see the packages.
unfoldable pub new_vpp_agent :
    {V L : Type 0} → (Packages → V) → (Packages → L) → Packages → VppAgent V L × Packages
new_vpp_agent default_vpp default_linux w =
    let (etcd_data_sync, w') = connect_etcd w in
    let wired = record w' {
      vpp_linux_if_plugin = some linux_if_plugin;
      vpp_ns_plugin = some (default_plugin (codes "linux/nsplugin"));
      linux_vpp_if_plugin = some vpp_if_plugin;
    } in
    (
      record {
        plugin_name = codes "NSM-Agent";
        log_manager = default_plugin (codes "logmanager");
        vpp = default_vpp wired;
        linux = default_linux wired;
        netalloc = default_plugin (codes "netalloc");
        nsm_plugin = default_plugin (codes "nsmplugin");
        orchestrator = default_plugin (codes "orchestrator");
        etcd_data_sync = etcd_data_sync;
        configurator = default_plugin (codes "configurator");
        rest_api = default_plugin (codes "restapi");
        probe = default_plugin (codes "probe");
        telemetry = default_plugin (codes "telemetry");
      },
      wired,
    )

unfoldable pub new_linux_agent : {L : Type 0} → (Packages → L) → Packages → LinuxAgent L × Packages
new_linux_agent default_linux w =
    let (etcd_data_sync, w') = connect_etcd w in
    (
      record {
        plugin_name = codes "NSM-Agent";
        log_manager = default_plugin (codes "logmanager");
        linux = default_linux w';
        netalloc = default_plugin (codes "netalloc");
        nsm_plugin = default_plugin (codes "nsmplugin");
        orchestrator = default_plugin (codes "orchestrator");
        etcd_data_sync = etcd_data_sync;
        probe = default_plugin (codes "probe");
      },
      w',
    )

-- What ligato calls on a plugin while an agent starts and ends.
pub record Hooks : Type 0 where
  pub init : Packages → Option Error × Packages
  pub after_init : Packages → Option Error × Packages
  pub close : Packages → Option Error × Packages

abbrev nothing : Packages → Option Error × Packages
nothing w = (none, w)

-- `DoResync` of the default plugin of resync.
unfoldable pub do_resync : Packages → Option Error × Packages
do_resync w = (none, record w { resyncs = suc w.resyncs })

unfoldable pub vpp_agent_hooks : Hooks
vpp_agent_hooks = record { init = nothing; after_init = do_resync; close = nothing }

unfoldable pub linux_agent_hooks : Hooks
linux_agent_hooks = record { init = nothing; after_init = do_resync; close = nothing }

unfoldable pub cnf_crd_hooks : Hooks
cnf_crd_hooks = record { init = nothing; after_init = do_resync; close = nothing }

abbrev pub cnf_crd_string : Bytes
cnf_crd_string = codes "CNF-CRD"

-- How a program ends: by itself, or by a fatal error that is logged.
pub data Exit : Type 0 where
  returns : Exit
  fatal : Error → Exit

abbrev pub exit_of : Option Error → Exit
exit_of none = returns
exit_of (some x) = fatal x

-- `main` of an agent: `print` is the error of printing the logo, and `run` what running it returns.
unfoldable pub agent_main :
    {A : Type 0}
    → Option Error
    → (Packages → A × Packages)
    → (A → Packages → Option Error × Packages)
    → Packages
    → Exit × Packages
agent_main (some x) new_agent run w = (fatal x, w)
agent_main none new_agent run w =
    let (agent, w') = new_agent w in let (failed, w'') = run agent w' in (exit_of failed, w'')

-- `main` of cmd/nsm-agent-vpp and of cmd/nsm-agent-linux.
unfoldable pub vpp_agent_main :
    {V L : Type 0}
    → (Packages → V)
    → (Packages → L)
    → Option Error
    → (VppAgent V L → Packages → Option Error × Packages)
    → Packages
    → Exit × Packages
vpp_agent_main default_vpp default_linux print run =
    agent_main print (new_vpp_agent default_vpp default_linux) run

unfoldable pub linux_agent_main :
    {L : Type 0}
    → (Packages → L)
    → Option Error
    → (LinuxAgent L → Packages → Option Error × Packages)
    → Packages
    → Exit × Packages
linux_agent_main default_linux print run = agent_main print (new_linux_agent default_linux) run

-- `CNFCRD`, and `main` of cmd/cnf-crd.
pub record CnfCrd : Type 0 where
  pub health_probe : Ref
  pub crd : Ref

unfoldable pub crd_main : (CnfCrd → Packages → Option Error × Packages) → Packages → Exit × Packages
crd_main run w =
    let w' = record w {
      etcd_status_check = none;
      crd_etcd = some etcd;
      non_fatal_plugins = codes "etcd" ∷ [];
    } in
    let agent : CnfCrd = record {
      health_probe = default_plugin (codes "probe");
      crd = default_plugin (codes "crdplugin");
    } in
    let (failed, w'') = run agent w' in (exit_of failed, w'')
