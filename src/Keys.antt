-- ===== src/Keys.antt =====
-- proto/nsm/keys.go: the keys of the notifications about endpoints.
pub mod Format
pub mod Parse
pub mod Distinct
use cnf_nsm.Common.{
  ℕ, ◌+◌, ◌-◌, Bool, ◌||◌, not, List, [], ◌∷◌, ◌++◌, Option, none, some, Bytes, codes, str_eq, ltb,
  length, if◌then◌else◌, refl, ◌≡◌,
}
use cnf_nsm.Common.Index.{get_or, slice}
use cnf_nsm.GoLib.Strings.{trim_prefix, replace_first, split, join}

abbrev pub notification_key_prefix : Bytes
notification_key_prefix = codes "notification/nsm/"

abbrev pub endpoint_notification_key_prefix : Bytes
endpoint_notification_key_prefix = notification_key_prefix ++ codes "endpoint/"

abbrev pub endpoint_notif_key_template : Bytes
endpoint_notif_key_template =
    endpoint_notification_key_prefix
    ++ codes "service/{network-service}/label/{label-key}/{label-value}"

abbrev pub invalid_key_part : Bytes
invalid_key_part = codes "<invalid>"

-- An empty part is replaced.
unfoldable pub valid_part : Bytes → Bytes
valid_part [] = invalid_key_part
valid_part (c ∷ s) = c ∷ s

unfoldable pub endpoint_notification_key : Bytes → Bytes → Bytes → Bytes
endpoint_notification_key ns label_key label_value =
    let key =
      replace_first endpoint_notif_key_template (codes "{network-service}") (valid_part ns) in
    let key' = replace_first key (codes "{label-key}") (valid_part label_key) in
    replace_first key' (codes "{label-value}") (valid_part label_value)

pub record ParsedKey : Type 0 where
  pub ns : Bytes
  pub label_key : Bytes
  pub label_value : Bytes

-- The code splits the whole key, and not what is left behind the prefix; `none` is `ok == false`.
unfoldable pub parse_endpoint_notification_key : Bytes → Option ParsedKey
parse_endpoint_notification_key key =
    let suffix = trim_prefix key endpoint_notification_key_prefix in
    let parts = split b'/' key in
    let label_idx = length parts - 3 in
    if str_eq suffix key
    then none
    else if ltb (length parts) 5
        || not (str_eq (get_or parts 0 []) (codes "service"))
        || not (str_eq (get_or parts label_idx []) (codes "label"))
    then none
    else some (record {
      ns = join b'/' (slice 2 label_idx parts);
      label_key = get_or parts (label_idx + 1) [];
      label_value = get_or parts (label_idx + 2) [];
    })
