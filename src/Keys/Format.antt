-- ===== src/Keys/Format.antt =====
-- What a notification key looks like.
use cnf_nsm.Common.{◌≡◌, [], ◌∷◌, ◌++◌, Bytes, codes, append-nil}
use cnf_nsm.GoLib.Strings.{replace_first, join}
use cnf_nsm.GoLib.Strings.Laws.{Lacks, replace_first_skip}
use cnf_nsm.Keys.{endpoint_notification_key_prefix, valid_part, endpoint_notification_key}

-- A key is the prefix, the word "service", the network service, the word "label", the key and the
-- value of the label, joined by slashes; an empty part stands as "<invalid>". This holds whenever
-- neither the network service nor the key of the label holds a brace.
pub endpoint_notification_key_lem :
    (ns label_key label_value : Bytes)
    → Lacks b'{' (valid_part ns)
    → Lacks b'{' (valid_part label_key)
    → endpoint_notification_key ns label_key label_value
      ≡ endpoint_notification_key_prefix
        ++ join b'/' (
            codes "service"
            ∷ valid_part ns
            ∷ codes "label"
            ∷ valid_part label_key
            ∷ valid_part label_value
            ∷ [])
unfolding endpoint_notification_key replace_first join
endpoint_notification_key_lem ns label_key label_value hn hk =
    rw
      (
        replace_first_skip (valid_part ns) _ _ _ _ hn,
        replace_first_skip (valid_part ns) _ _ _ _ hn,
        replace_first_skip (valid_part label_key) _ _ _ _ hk,
      )
      (rw append-nil)
