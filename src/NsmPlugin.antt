-- ===== src/NsmPlugin.antt =====
-- plugins/nsmplugin/nsmplugin.go and options.go: the plugin that registers the two descriptors with the KV
-- scheduler, and injects the publisher of notifications.
pub mod Publishing
use cnf_nsm.Common.{or_else, Bool, true, false, List, [], ◌∷◌, Option, none, some, Bytes, codes}
use cnf_nsm.Errors.{Error}
use cnf_nsm.ClientDescriptor.{
  NsmClientDescriptor, nsm_client_descriptor_name, new_nsm_client_descriptor,
}
use cnf_nsm.EndpointDescriptor.{
  NsmEndpointDescriptor, nsm_endpoint_descriptor_name, new_nsm_endpoint_descriptor,
}

-- The publisher over a key-value store, with the label of the agent whose keys it publishes.
pub record NotifPublisher : Type 0 where
  pub plugin_name : Bytes
  pub kv_plugin : Bytes
  pub label_plugin_name : Bytes
  pub microservice_label : Bytes

-- `log` and `cfg` are named.
pub record NsmPlugin : Type 0 where
  pub plugin_name : Bytes
  pub kv_scheduler : Bool
  pub log : Option Bytes
  pub cfg : Option Bytes
  pub notif_publisher : Option NotifPublisher
  pub nsm_client_descriptor : Option NsmClientDescriptor
  pub nsm_endpoint_descriptor : Option NsmEndpointDescriptor

abbrev pub global_notif_agent_label : Bytes
global_notif_agent_label = codes "global"

abbrev pub nsm_plugin_name : Bytes
nsm_plugin_name = codes "nsm-plugin"

abbrev pub named_plugin : NsmPlugin
named_plugin = record {
  plugin_name = nsm_plugin_name;
  kv_scheduler = true;
  log = none;
  cfg = none;
  notif_publisher = none;
  nsm_client_descriptor = none;
  nsm_endpoint_descriptor = none;
}

unfoldable pub apply_options : List (NsmPlugin → NsmPlugin) → NsmPlugin → NsmPlugin
apply_options [] p = p
apply_options (o ∷ opts) p = apply_options opts (o p)

unfoldable pub new_plugin : List (NsmPlugin → NsmPlugin) → NsmPlugin
new_plugin opts =
    let p = apply_options opts named_plugin in
    record p { log = some (or_else p.log p.plugin_name); cfg = some (or_else p.cfg p.plugin_name) }

unfoldable pub with_customized_notifications : Bytes → Bytes → NsmPlugin → NsmPlugin
with_customized_notifications kvdb group_name p = record p {
  notif_publisher = some (record {
    plugin_name = codes "nsm-notif-kvdb";
    kv_plugin = kvdb;
    label_plugin_name = codes "nsm-notif-service-label";
    microservice_label = group_name;
  });
}

-- The default plugin of etcd goes by its name.
unfoldable pub with_notifications : NsmPlugin → NsmPlugin
with_notifications = with_customized_notifications (codes "etcd") global_notif_agent_label

unfoldable pub default_plugin : NsmPlugin
default_plugin = new_plugin (with_notifications ∷ [])

abbrev pub is_injected : Option NotifPublisher → Bool
is_injected none = false
is_injected (some _) = true

-- `register` is what the scheduler answers to a descriptor, by its name; the state is the plugin and the
-- descriptors that were handed to the scheduler, the latest first.
module _ (register : Bytes → Option Error) where
  register_endpoints : NsmPlugin → List Bytes → Option Error × NsmPlugin × List Bytes
  register_endpoints p sent = (
    register (nsm_endpoint_descriptor_name),
    record p {
      nsm_endpoint_descriptor = some (new_nsm_endpoint_descriptor (is_injected p.notif_publisher));
    },
    nsm_endpoint_descriptor_name ∷ sent,
  )

  unfoldable pub init : NsmPlugin → List Bytes → Option Error × NsmPlugin × List Bytes
  unfolding register_endpoints
  init p sent =
      let p1 = record p { nsm_client_descriptor = some new_nsm_client_descriptor } in
      let sent1 = nsm_client_descriptor_name ∷ sent in
      elim (register (nsm_client_descriptor_name)) [
        | some e ↦ (some e, p1, sent1)
        | none ↦ register_endpoints p1 sent1
      ]

unfoldable pub close : NsmPlugin → Option Error × NsmPlugin
close p = (none, p)
