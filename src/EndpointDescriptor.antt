-- ===== src/EndpointDescriptor.antt =====
-- `NSMEndpointDescriptor` of plugins/nsmplugin/descriptor/nsm_endpoint.go: validation, creation and
-- deletion of endpoints, with the notifications about them.
pub mod Notifications
pub mod Outcomes
pub mod System
pub mod Passing
pub mod Registry
pub mod Answering
pub mod Refinement
pub mod Recreating
pub mod Announced
use cnf_nsm.Common.{
  Bool, true, false, List, [], ◌∷◌, ◌++◌, Option, none, some, Bytes, codes, str_eq, if◌then◌else◌,
  not, ◌&&◌, ◌||◌,
}
use cnf_nsm.Proto.{NetworkServiceEndpoint, ConnectionLabel}
use cnf_nsm.Errors.{
  Error, invalid_value, endpoint_without_network_service, endpoint_without_interface,
}
use cnf_nsm.External.{Os, SdkNames, Connection, NsConfiguration}
use cnf_nsm.Keys.{endpoint_notification_key}
use cnf_nsm.Naming.{nsm_mechanism_from_interface_type, nsm_labels_from_proto, generate_dummy_subnet}
use cnf_nsm.Endpoint.{
  NsmConnection, NsmEndpoint, Next, new_nsm_endpoint, request, close, close_connections,
}
use cnf_nsm.Demux.{
  Handlers, DemuxEnv, NsmEndpointDemux, new_nsm_endpoint_demux, add_endpoint, delete_endpoint,
}

-- What is sent to the publisher of notifications, with the error that it answers, which is only logged.
pub data Notification : Type 0 where
  put delete : Bytes → Option Error → Notification

-- `notif_publisher` is the notifications sent, the latest first, if a publisher is injected.
pub record NsmEndpointDescriptor : Type 0 where
  pub notif_publisher : Option (List Notification)
  pub ep_demux : NsmEndpointDemux NsmEndpoint

-- The composite of the SDK: what it makes of the handlers of the endpoint at its end.
pub record Composite : Type 0 where
  pub request :
      (NsmEndpoint → Connection → (Connection × Option Error) × NsmEndpoint)
      → NsmEndpoint
      → Connection
      → (Connection × Option Error) × NsmEndpoint
  pub close :
      (NsmEndpoint → Connection → Option Error × NsmEndpoint)
      → NsmEndpoint
      → Connection
      → Option Error × NsmEndpoint

-- The endpoint as the service that `Create` registers: requests and closings go through the composite,
-- the closer calls the endpoint itself, in some order of the iteration.
unfoldable pub endpoint_handlers :
    Os
    → SdkNames
    → Composite
    → Option Next
    → (NsmEndpoint → List NsmConnection)
    → Handlers NsmEndpoint
endpoint_handlers os names composite next order = record {
  request = composite.request (request os names next);
  close = composite.close (close os names next);
  close_connections = λ e. close_connections os names e (order e);
}

-- `Name` of an endpoint in its composite.
abbrev pub endpoint_composite_name : Bytes
endpoint_composite_name = codes "NSM Plugin Endpoint"

abbrev pub nsm_endpoint_descriptor_name : Bytes
nsm_endpoint_descriptor_name = codes "nsm-endpoint-descriptor"

-- `injected` tells whether there is a publisher.
unfoldable pub new_nsm_endpoint_descriptor : Bool → NsmEndpointDescriptor
new_nsm_endpoint_descriptor injected = record {
  notif_publisher = if injected then some [] else none;
  ep_demux = new_nsm_endpoint_demux;
}

unfoldable pub validate : NetworkServiceEndpoint → Option Error
validate cfg =
    if str_eq cfg.network_service []
    then some (invalid_value endpoint_without_network_service (codes "network_service"))
    else if str_eq cfg.interface_name_prefix []
    then some (invalid_value endpoint_without_interface (codes "interface_name_prefix"))
    else none

unfoldable pub endpoint_configuration :
    SdkNames → NsConfiguration → NetworkServiceEndpoint → NsConfiguration
endpoint_configuration names from_env cfg = record from_env {
  mechanism_type = nsm_mechanism_from_interface_type names cfg.interface_type;
  advertise_nse_name = cfg.network_service;
  advertise_nse_labels = nsm_labels_from_proto cfg.advertised_labels;
  ip_address = generate_dummy_subnet (codes "endpoint-" ++ cfg.network_service);
}

unfoldable pub label_key : NetworkServiceEndpoint → ConnectionLabel → Bytes
label_key cfg label = endpoint_notification_key cfg.network_service label.key label.value

-- The loops of `Create` and `Delete` over the labels.
unfoldable pub notify :
    (Bytes → Option Error → Notification)
    → (Bytes → Option Error)
    → NetworkServiceEndpoint
    → List ConnectionLabel
    → List Notification
    → List Notification
notify action answers cfg [] sent = sent
notify action answers cfg (label ∷ labels) sent =
    let key = label_key cfg label in
    notify action answers cfg labels (action key (answers key) ∷ sent)

unfoldable pub publish :
    (Bytes → Option Error → Notification)
    → (Bytes → Option Error)
    → NetworkServiceEndpoint
    → NsmEndpointDescriptor
    → NsmEndpointDescriptor
publish action answers cfg d = elim d.notif_publisher [
  | none ↦ d
  | some sent ↦ record d {
    notif_publisher = some (notify action answers cfg cfg.advertised_labels sent);
  }
]

-- The metadata that `Create` returns is always nil.
unfoldable pub create :
    SdkNames
    → DemuxEnv
    → NsConfiguration
    → NetworkServiceEndpoint
    → NsmEndpointDescriptor
    → Option Error × NsmEndpointDescriptor
create names env from_env cfg d =
    let (failed, x) =
      add_endpoint env (endpoint_configuration names from_env cfg) (new_nsm_endpoint cfg)
        d.ep_demux in
    elim failed [
      | some e ↦ (some e, record d { ep_demux = x })
      | none ↦ (none, publish put env.on_put cfg (record d { ep_demux = x }))
    ]

-- A failure of the demultiplexer is only logged.
unfoldable pub delete_nse :
    Handlers NsmEndpoint
    → DemuxEnv
    → NetworkServiceEndpoint
    → NsmEndpointDescriptor
    → Option Error × NsmEndpointDescriptor
delete_nse h env cfg d =
    let (_, x) = delete_endpoint h env cfg.network_service d.ep_demux in
    (none, publish delete env.on_delete cfg (record d { ep_demux = x }))

-- Whether a key is published after the notifications; one with an error has no effect.
unfoldable pub published : List Notification → Bytes → Bool
published [] key = false
published (put k none ∷ sent) key = str_eq k key || published sent key
published (put k (some e) ∷ sent) key = published sent key
published (delete k none ∷ sent) key = not (str_eq k key) && published sent key
published (delete k (some e) ∷ sent) key = published sent key
