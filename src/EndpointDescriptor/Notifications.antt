-- ===== src/EndpointDescriptor/Notifications.antt =====
-- The notifications of an endpoint that was created, and of one that was deleted.
use cnf_nsm.Common.{
  ◌≡◌, Bool, true, false, not, ◌&&◌, ◌||◌, List, [], ◌∷◌, Option, none, some, Bytes, arith, str_eq,
  inl, inr, Option-cases, Bool-cases, str_eq_iff, ap,
}
use cnf_nsm.Proto.{NetworkServiceEndpoint, ConnectionLabel}
use cnf_nsm.Errors.{Error}
use cnf_nsm.External.{SdkNames, NsConfiguration}
use cnf_nsm.Demux.{Handlers, DemuxEnv}
use cnf_nsm.Endpoint.{NsmEndpoint}
use cnf_nsm.EndpointDescriptor.{
  Notification, put, delete, NsmEndpointDescriptor, label_key, notify, publish, create, delete_nse,
  published,
}

-- Whether the key is that of a label of the endpoint.
unfoldable pub names_label : NetworkServiceEndpoint → List ConnectionLabel → Bytes → Bool
names_label cfg [] key = false
names_label cfg (label ∷ labels) key =
    str_eq (label_key cfg label) key || names_label cfg labels key

abbrev pub is_none : Option Error → Bool
is_none none = true
is_none (some _) = false

published-put :
    (answers : Bytes → Option Error) (cfg : NetworkServiceEndpoint) (labels : List ConnectionLabel)
    (sent : List Notification) (key : Bytes)
    → published (notify put answers cfg labels sent) key
      ≡ (is_none (answers key) && names_label cfg labels key || published sent key)
unfolding notify names_label published
published-put answers cfg [] sent key = ground arith
published-put answers cfg (l ∷ labels) sent key =
    let k = label_key cfg l in
    let rest = published-put answers cfg labels (put k (answers k) ∷ sent) key in
    elim (Bool-cases (str_eq k key)) [
      | inl same ↦
          let one : answers k ≡ answers key = ap answers ((str_eq_iff k key).0 same) in
          elim (Option-cases (answers k)) [
            | inl done ↦ ground (arith, rest, done, one)
            | inr (e, failed) ↦ ground (arith, rest, failed, one)
          ]
      | inr differs ↦ elim (Option-cases (answers k)) [
        | inl done ↦ ground (arith, rest, done)
        | inr (e, failed) ↦ ground (arith, rest, failed)
      ]
    ]

published-delete :
    (answers : Bytes → Option Error) (cfg : NetworkServiceEndpoint) (labels : List ConnectionLabel)
    (sent : List Notification) (key : Bytes)
    → published (notify delete answers cfg labels sent) key
      ≡ (not (is_none (answers key) && names_label cfg labels key) && published sent key)
unfolding notify names_label published
published-delete answers cfg [] sent key = ground arith
published-delete answers cfg (l ∷ labels) sent key =
    let k = label_key cfg l in
    let rest = published-delete answers cfg labels (delete k (answers k) ∷ sent) key in
    elim (Bool-cases (str_eq k key)) [
      | inl same ↦
          let one : answers k ≡ answers key = ap answers ((str_eq_iff k key).0 same) in
          elim (Option-cases (answers k)) [
            | inl done ↦ ground (arith, rest, done, one)
            | inr (e, failed) ↦ ground (arith, rest, failed, one)
          ]
      | inr differs ↦ elim (Option-cases (answers k)) [
        | inl done ↦ ground (arith, rest, done)
        | inr (e, failed) ↦ ground (arith, rest, failed)
      ]
    ]

-- What a descriptor has published; nothing, if there is no publisher.
abbrev sent_by : Option (List Notification) → List Notification
sent_by none = []
sent_by (some sent) = sent

abbrev pub is_published : NsmEndpointDescriptor → Bytes → Bool
is_published d key = published (sent_by d.notif_publisher) key

-- With a publisher, a `Create` without an error has published the keys of the labels of the endpoint
-- that the publisher took, and has left all other keys as they were; with an error it has left all of them as they were.
pub is_published-create :
    (names : SdkNames) (env : DemuxEnv) (from_env : NsConfiguration) (cfg : NetworkServiceEndpoint)
    (d : NsmEndpointDescriptor) (sent : List Notification) (key : Bytes)
    → d.notif_publisher ≡ some sent
    → is_published (create names env from_env cfg d).1 key ≡ (
        is_none (create names env from_env cfg d).0
          && (is_none (env.on_put key) && names_label cfg cfg.advertised_labels key)
        || is_published d key)
unfolding create publish
is_published-create names env from_env cfg d sent key injected =
    let put_all = published-put env.on_put cfg cfg.advertised_labels sent key in
    elim (Option-cases (create names env from_env cfg d).0) [
      | inl made ↦ ground (arith, put_all)
      | inr (e, failed) ↦ ground arith
    ]

-- A `Delete` has taken back the keys of the labels of the endpoint, unless the publisher refused that of
-- the key, and has left all other keys as they were, also if the endpoint could not be deleted.
pub is_published-delete_nse :
    (h : Handlers NsmEndpoint) (env : DemuxEnv) (cfg : NetworkServiceEndpoint)
    (d : NsmEndpointDescriptor) (key : Bytes)
    → is_published (delete_nse h env cfg d).1 key ≡ (
        not (is_none (env.on_delete key) && names_label cfg cfg.advertised_labels key)
        && is_published d key)
unfolding delete_nse publish published
is_published-delete_nse h env cfg d key = elim (Option-cases d.notif_publisher) [
  | inl absent ↦ ground arith
  | inr (sent, injected) ↦
      ground (arith, published-delete env.on_delete cfg cfg.advertised_labels sent key)
]
