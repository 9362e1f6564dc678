-- ===== src/Keys/Distinct.antt =====
-- Which labels share a notification key.
use cnf_nsm.Common.{
  ℕ, ◌≡◌, refl, sym, ap, ◌∙◌, [], ◌∷◌, ◌++◌, Bytes, codes, arith, append_assoc, append-left_cancel,
}
use cnf_nsm.GoLib.Strings.{join}
use cnf_nsm.GoLib.Strings.Laws.{Lacks, last_separator}
use cnf_nsm.Keys.Format.{endpoint_notification_key_lem}
use cnf_nsm.Keys.{
  endpoint_notification_key_prefix, invalid_key_part, valid_part, endpoint_notification_key,
}

-- A network service without a brace, and a label whose key has neither a brace nor a slash and whose
-- value has no slash.
pub record IsPlain (ns label_key label_value : Bytes) : Type 0 where
  pub ns_no_brace : Lacks b'{' ns
  pub key_no_brace : Lacks b'{' label_key
  pub key_no_slash : Lacks b'/' label_key
  pub value_no_slash : Lacks b'/' label_value

Lacks-valid_part :
    (b : ℕ) (part : Bytes) → Lacks b invalid_key_part → Lacks b part → Lacks b (valid_part part)
unfolding valid_part
Lacks-valid_part b [] invalid h = invalid
Lacks-valid_part b (c ∷ s) invalid h = h

-- The end of a key, with its last two slashes in front.
regrouped :
    (ns k v : Bytes)
    → ns ++ b'/' ∷ (codes "label" ++ b'/' ∷ (k ++ b'/' ∷ v))
      ≡ ((ns ++ b'/' ∷ codes "label") ++ b'/' ∷ k) ++ b'/' ∷ v
regrouped ns k v = rw (append_assoc, append_assoc) refl

shaped :
    (ns k v : Bytes)
    → IsPlain ns k v
    → endpoint_notification_key ns k v
      ≡ endpoint_notification_key_prefix
        ++ (codes "service/"
            ++ (((valid_part ns ++ b'/' ∷ codes "label") ++ b'/' ∷ valid_part k)
                ++ b'/' ∷ valid_part v))
unfolding join
shaped ns k v plain =
    endpoint_notification_key_lem ns k v (Lacks-valid_part b'{' ns (omega arith) plain.ns_no_brace)
      (Lacks-valid_part b'{' k (omega arith) plain.key_no_brace)
    ∙ ap (λ (s : Bytes). endpoint_notification_key_prefix ++ (codes "service/" ++ s))
        (regrouped (valid_part ns) (valid_part k) (valid_part v))

-- Two labels have one key only if their network services, keys and values are the same, where an empty
-- part is the same as "<invalid>".
pub endpoint_notification_key-injective :
    (ns k v ns' k' v' : Bytes)
    → IsPlain ns k v
    → IsPlain ns' k' v'
    → endpoint_notification_key ns k v ≡ endpoint_notification_key ns' k' v'
    → (valid_part ns ≡ valid_part ns')
      × (valid_part k ≡ valid_part k')
      × (valid_part v ≡ valid_part v')
endpoint_notification_key-injective ns k v ns' k' v' plain plain' same =
    let whole = sym (shaped ns k v plain) ∙ same ∙ shaped ns' k' v' plain' in
    let rest =
      append-left_cancel (codes "service/") _ _
        (append-left_cancel endpoint_notification_key_prefix _ _ whole) in
    let slash : Lacks b'/' invalid_key_part = omega arith in
    let (front, values) =
      last_separator b'/' ((valid_part ns ++ b'/' ∷ codes "label") ++ b'/' ∷ valid_part k)
        ((valid_part ns' ++ b'/' ∷ codes "label") ++ b'/' ∷ valid_part k') (valid_part v)
        (valid_part v') (Lacks-valid_part b'/' v slash plain.value_no_slash)
        (Lacks-valid_part b'/' v' slash plain'.value_no_slash) rest in
    let (names, keys) =
      last_separator b'/' (valid_part ns ++ b'/' ∷ codes "label")
        (valid_part ns' ++ b'/' ∷ codes "label") (valid_part k) (valid_part k')
        (Lacks-valid_part b'/' k slash plain.key_no_slash)
        (Lacks-valid_part b'/' k' slash plain'.key_no_slash) front in
    let (services, _) =
      last_separator b'/' (valid_part ns) (valid_part ns') (codes "label") (codes "label")
        (omega arith) (omega arith) names in
    (services, keys, values)
