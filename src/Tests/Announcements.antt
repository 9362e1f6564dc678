-- ===== src/Tests/Announcements.antt =====
-- Witnesses for the notifications of endpoints.
use cnf_nsm.Common.{◌≡◌, ◌≢◌, refl, true, false, [], ◌∷◌, Bytes, codes, arith, str_eq_refl}
use cnf_nsm.Proto.{NetworkServiceEndpoint, ConnectionLabel}
use cnf_nsm.Demux.{demux_request, add_endpoint, ensure_connected, register_endpoint}
use cnf_nsm.Keys.{valid_part}
use cnf_nsm.EndpointDescriptor.{NsmEndpointDescriptor, label_key, create, delete_nse, publish}
use cnf_nsm.EndpointDescriptor.Notifications.{names_label, is_published}
use cnf_nsm.EndpointDescriptor.Announced.{
  HasPlainLabels, OtherCalls, nothing, creates_other, deletes_other, requests_any,
  announced_until_deleted,
}
use cnf_nsm.Tests.Samples.{
  conn_a, sdk_names, env_config, sample_env, sample_handlers, kernel_endpoint, sample_descriptor,
}

abbrev app_label : ConnectionLabel
app_label = record { key = codes "app"; value = codes "cnf" }

abbrev app_key : Bytes
app_key = label_key kernel_endpoint app_label

abbrev nat_endpoint : NetworkServiceEndpoint
nat_endpoint = record kernel_endpoint { network_service = codes "nat" }

app_key-named : names_label kernel_endpoint (app_label ∷ []) app_key ≡ true
unfolding names_label
app_key-named = ground (arith, str_eq_refl app_key)

kernel_endpoint-HasPlainLabels : HasPlainLabels kernel_endpoint
kernel_endpoint-HasPlainLabels = (
  record {
    ns_no_brace = omega arith;
    key_no_brace = omega arith;
    key_no_slash = omega arith;
    value_no_slash = omega arith;
  },
  tt,
)

nat_endpoint-HasPlainLabels : HasPlainLabels nat_endpoint
nat_endpoint-HasPlainLabels = (
  record {
    ns_no_brace = omega arith;
    key_no_brace = omega arith;
    key_no_slash = omega arith;
    value_no_slash = omega arith;
  },
  tt,
)

other_service : valid_part (codes "nat") ≢ valid_part (codes "fw")
unfolding valid_part
other_service = ground arith

abbrev created : NsmEndpointDescriptor
created = (create sdk_names sample_env env_config kernel_endpoint sample_descriptor).1

-- Another endpoint is created, a client connects, and that endpoint is deleted.
abbrev still_there : NsmEndpointDescriptor
still_there =
    let with_nat = (create sdk_names sample_env env_config nat_endpoint created).1 in
    let connected = record with_nat {
      ep_demux = (demux_request sample_handlers with_nat.ep_demux conn_a).1;
    } in
    (delete_nse sample_handlers sample_env nat_endpoint connected).1

still_there-OtherCalls : OtherCalls sdk_names (codes "fw") created still_there
still_there-OtherCalls =
    deletes_other sample_handlers sample_env nat_endpoint
      (requests_any sample_handlers conn_a (
        creates_other sample_env env_config nat_endpoint nothing nat_endpoint-HasPlainLabels
          other_service))
      nat_endpoint-HasPlainLabels other_service

abbrev gone : NsmEndpointDescriptor
gone = (delete_nse sample_handlers sample_env kernel_endpoint still_there).1

abbrev later : NsmEndpointDescriptor
later = (create sdk_names sample_env env_config nat_endpoint gone).1

announced_until_deleted_example :
    (is_published still_there app_key ≡ true) × (is_published later app_key ≡ false)
unfolding create add_endpoint ensure_connected register_endpoint publish
announced_until_deleted_example =
    announced_until_deleted sdk_names sample_env sample_env env_config kernel_endpoint
      sample_handlers sample_descriptor still_there later [] app_key kernel_endpoint-HasPlainLabels
      app_key-named refl refl still_there-OtherCalls
      (creates_other sample_env env_config nat_endpoint nothing nat_endpoint-HasPlainLabels
        other_service)
