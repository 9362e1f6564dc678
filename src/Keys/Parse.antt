-- ===== src/Keys/Parse.antt =====
-- What `ParseEndpointNotificationKey` makes of a key.
use cnf_nsm.Common.{
  ◌≡◌, ◌∷◌, ◌++◌, none, Bytes, codes, arith, str_eq, str_eq_refl, Option-cases, inl, inr,
}
use cnf_nsm.GoLib.Strings.{cut_prefix, trim_prefix, split}
use cnf_nsm.GoLib.Strings.Laws.{cut_prefix_sound, split_part}
use cnf_nsm.Keys.{endpoint_notification_key_prefix, parse_endpoint_notification_key}

-- The first part of a key under the prefix is "notification".
split_notification :
    (rest : Bytes)
    → split b'/' (endpoint_notification_key_prefix ++ rest)
      ≡ codes "notification" ∷ split b'/' (codes "nsm/endpoint/" ++ rest)
split_notification rest = split_part b'/' (codes "notification") _ (omega arith)

parse_under_prefix :
    (rest : Bytes)
    → parse_endpoint_notification_key (endpoint_notification_key_prefix ++ rest) ≡ none
unfolding parse_endpoint_notification_key str_eq
parse_under_prefix rest = ground (arith, split_notification rest)

parse_elsewhere :
    (key : Bytes)
    → cut_prefix endpoint_notification_key_prefix key ≡ none
    → parse_endpoint_notification_key key ≡ none
unfolding parse_endpoint_notification_key trim_prefix
parse_elsewhere key h = rw (h, trim_prefix) (ground (arith, str_eq_refl key))

-- No key is ever parsed, those that `EndpointNotificationKey` makes included: a key under the prefix
-- of notifications is split with the prefix still in front, so that its first part is never the word
-- that the parser asks for.
pub parse_endpoint_notification_key-none :
    (key : Bytes) → parse_endpoint_notification_key key ≡ none
parse_endpoint_notification_key-none key =
    elim (Option-cases (cut_prefix endpoint_notification_key_prefix key)) [
      | inl e ↦ parse_elsewhere key e
      | inr (rest, e) ↦
          rw (cut_prefix_sound endpoint_notification_key_prefix key rest e)
            (parse_under_prefix rest)
    ]
