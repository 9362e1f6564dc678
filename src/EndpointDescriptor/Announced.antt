-- ===== src/EndpointDescriptor/Announced.antt =====
-- How long the labels of an endpoint stay announced.
use cnf_nsm.Common.{
  ◌≡◌, ◌≢◌, refl, sym, ◌∙◌, Bool, true, false, not, ◌&&◌, ◌||◌, List, [], ◌∷◌, none, some, Bytes,
  arith, All, str_eq, str_eq_iff, inl, inr, Bool-cases, Option-cases,
}
use cnf_nsm.Proto.{NetworkServiceEndpoint, ConnectionLabel}
use cnf_nsm.External.{SdkNames, Connection, NsConfiguration}
use cnf_nsm.Keys.{valid_part}
use cnf_nsm.Keys.Distinct.{IsPlain, endpoint_notification_key-injective}
use cnf_nsm.Demux.{Handlers, DemuxEnv, demux_request, demux_close}
use cnf_nsm.Endpoint.{NsmEndpoint}
use cnf_nsm.EndpointDescriptor.{
  Notification, NsmEndpointDescriptor, label_key, publish, create, delete_nse,
}
use cnf_nsm.EndpointDescriptor.Notifications.{
  is_none, names_label, is_published, is_published-create, is_published-delete_nse,
}

abbrev PlainLabels : NetworkServiceEndpoint → List ConnectionLabel → Type 0
PlainLabels cfg labels = All (λ l. IsPlain cfg.network_service l.key l.value) labels

-- The labels of an endpoint have keys that can be told from those of others.
abbrev pub HasPlainLabels : NetworkServiceEndpoint → Type 0
HasPlainLabels cfg = PlainLabels cfg cfg.advertised_labels

-- Calls of the agent about endpoints of other network services, and calls of NSM about any.
pub data OtherCalls (names : SdkNames) (service : Bytes) (d : NsmEndpointDescriptor)
    : NsmEndpointDescriptor → Type 0 where
  nothing : OtherCalls names service d d
  creates_other :
      (env : DemuxEnv) (from_env : NsConfiguration) (cfg : NetworkServiceEndpoint)
      {d' : NsmEndpointDescriptor}
      → OtherCalls names service d d'
      → HasPlainLabels cfg
      → valid_part cfg.network_service ≢ valid_part service
      → OtherCalls names service d (create names env from_env cfg d').1
  deletes_other :
      (h : Handlers NsmEndpoint) (env : DemuxEnv) (cfg : NetworkServiceEndpoint)
      {d' : NsmEndpointDescriptor}
      → OtherCalls names service d d'
      → HasPlainLabels cfg
      → valid_part cfg.network_service ≢ valid_part service
      → OtherCalls names service d (delete_nse h env cfg d').1
  requests_any :
      (h : Handlers NsmEndpoint) (conn : Connection) {d' : NsmEndpointDescriptor}
      → OtherCalls names service d d'
      → OtherCalls names service d (record d' { ep_demux = (demux_request h d'.ep_demux conn).1 })
  closes_any :
      (h : Handlers NsmEndpoint) (conn : Connection) {d' : NsmEndpointDescriptor}
      → OtherCalls names service d d'
      → OtherCalls names service d (record d' { ep_demux = (demux_close h d'.ep_demux conn).1 })

-- The label that a key was made from.
named :
    (cfg : NetworkServiceEndpoint) (labels : List ConnectionLabel) (key : Bytes)
    → PlainLabels cfg labels
    → names_label cfg labels key ≡ true
    → (l : ConnectionLabel) × IsPlain cfg.network_service l.key l.value × (label_key cfg l ≡ key)
unfolding names_label
named cfg [] key plain h = absurd (ground arith)
named cfg (l ∷ labels) key plain h = elim (Bool-cases (str_eq (label_key cfg l) key)) [
  | inl same ↦ (l, plain.0, (str_eq_iff _ _).0 same)
  | inr differs ↦ named cfg labels key plain.1 (ground arith)
]

-- Endpoints of two network services share no key.
names_label-apart :
    (cfg other : NetworkServiceEndpoint) (key : Bytes)
    → HasPlainLabels cfg
    → HasPlainLabels other
    → valid_part other.network_service ≢ valid_part cfg.network_service
    → names_label cfg cfg.advertised_labels key ≡ true
    → names_label other other.advertised_labels key ≡ false
unfolding label_key
names_label-apart cfg other key plain plain' apart mine =
    elim (Bool-cases (names_label other other.advertised_labels key)) [
      | inr differs ↦ differs
      | inl its ↦
          let (l, p, k) = named cfg cfg.advertised_labels key plain mine in
          let (l', p', k') = named other other.advertised_labels key plain' its in
          absurd (
            apart
              (endpoint_notification_key-injective other.network_service l'.key l'.value
                cfg.network_service l.key l.value p' p (k' ∙ sym k)).0)
    ]

create-unnamed :
    (names : SdkNames) (env : DemuxEnv) (from_env : NsConfiguration) (cfg : NetworkServiceEndpoint)
    (d : NsmEndpointDescriptor) (key : Bytes)
    → names_label cfg cfg.advertised_labels key ≡ false
    → is_published (create names env from_env cfg d).1 key ≡ is_published d key
unfolding create publish
create-unnamed names env from_env cfg d key unnamed = elim (Option-cases d.notif_publisher) [
  | inl absent ↦ ground arith
  | inr (sent, injected) ↦
      let now = is_published-create names env from_env cfg d sent key injected in ground arith
]

refused_apart : (a b c : Bool) → b ≡ false → (not (a && b) && c) ≡ c
refused_apart a b c h = ground arith

OtherCalls-is_published :
    (names : SdkNames) (cfg : NetworkServiceEndpoint) (key : Bytes) {d d' : NsmEndpointDescriptor}
    → HasPlainLabels cfg
    → names_label cfg cfg.advertised_labels key ≡ true
    → OtherCalls names cfg.network_service d d'
    → is_published d' key ≡ is_published d key
OtherCalls-is_published names cfg key plain mine nothing = refl
OtherCalls-is_published names cfg key plain mine (creates_other env from_env other p plain' apart) =
    create-unnamed names env from_env other _ key
      (names_label-apart cfg other key plain plain' apart mine)
    ∙ OtherCalls-is_published names cfg key plain mine p
OtherCalls-is_published names cfg key plain mine (deletes_other h env other p plain' apart) =
    is_published-delete_nse h env other _ key
    ∙ refused_apart (is_none (env.on_delete key)) _ _
        (names_label-apart cfg other key plain plain' apart mine)
    ∙ OtherCalls-is_published names cfg key plain mine p
OtherCalls-is_published names cfg key plain mine (requests_any h conn p) =
    OtherCalls-is_published names cfg key plain mine p
OtherCalls-is_published names cfg key plain mine (closes_any h conn p) =
    OtherCalls-is_published names cfg key plain mine p

-- With a publisher, the key of a label of an endpoint is published from a `Create` of the endpoint
-- without an error, whose `Put` of the key the publisher takes, until the `Delete` of the endpoint, and
-- is not published from then on if the publisher takes that `Delete` of the key: whatever is called in
-- between and afterwards about endpoints of other network services, and whatever NSM asks for. Where the
-- publisher refuses, the key is published or not as it was before. The labels of the endpoints have keys
-- without braces and slashes, and values without slashes, and no network service has a brace.
pub announced_until_deleted :
    (names : SdkNames) (env env' : DemuxEnv) (from_env : NsConfiguration)
    (cfg : NetworkServiceEndpoint) (h : Handlers NsmEndpoint) (d d' d'' : NsmEndpointDescriptor)
    (sent : List Notification) (key : Bytes)
    → HasPlainLabels cfg
    → names_label cfg cfg.advertised_labels key ≡ true
    → d.notif_publisher ≡ some sent
    → (create names env from_env cfg d).0 ≡ none
    → OtherCalls names cfg.network_service (create names env from_env cfg d).1 d'
    → OtherCalls names cfg.network_service (delete_nse h env' cfg d').1 d''
    → (is_published d' key ≡ (is_none (env.on_put key) || is_published d key))
      × (is_published d'' key ≡ (not (is_none (env'.on_delete key)) && is_published d' key))
announced_until_deleted names env env' from_env cfg h d d' d'' sent key plain mine injected made
      others later =
    let now = is_published-create names env from_env cfg d sent key injected in
    let kept = OtherCalls-is_published names cfg key plain mine others in
    let deleted = is_published-delete_nse h env' cfg d' key in
    let still = OtherCalls-is_published names cfg key plain mine later in
    (kept ∙ ground (arith, now), still ∙ ground (arith, deleted))
