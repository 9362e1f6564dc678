-- ===== src/Tests/Plugins.antt =====
-- Witnesses for the NSM plugin.
use cnf_nsm.Common.{◌≡◌, refl, true, ◌&&◌, [], none, Bytes, codes, Option}
use cnf_nsm.Errors.{Error}
use cnf_nsm.EndpointDescriptor.{new_nsm_endpoint_descriptor, create}
use cnf_nsm.EndpointDescriptor.Notifications.{is_none, is_published, names_label}
use cnf_nsm.NsmPlugin.{
  is_injected, init, default_plugin, new_plugin, apply_options, with_notifications,
  with_customized_notifications,
}
use cnf_nsm.NsmPlugin.Publishing.{init_publishes}
use cnf_nsm.Tests.Samples.{sdk_names, sample_env, env_config, kernel_endpoint}

abbrev accepts : Bytes → Option Error
accepts name = none

init_publishes_example :
    is_published
      (create sdk_names sample_env env_config kernel_endpoint (new_nsm_endpoint_descriptor true)).1
      (codes "k")
    ≡ (is_injected default_plugin.notif_publisher
        && (is_none
              (create sdk_names sample_env env_config kernel_endpoint
                (new_nsm_endpoint_descriptor true)).0
            && names_label kernel_endpoint kernel_endpoint.advertised_labels (codes "k")))
unfolding init default_plugin new_plugin apply_options with_notifications
    with_customized_notifications
init_publishes_example =
    init_publishes accepts default_plugin [] (new_nsm_endpoint_descriptor true) sdk_names sample_env
      env_config kernel_endpoint (codes "k") refl refl
