-- ===== src/Proto/Getters/Label.antt =====
-- The getters of `ConnectionLabel`.
use cnf_nsm.Common.{[], Option, none, some, Bytes}
use cnf_nsm.Proto.{ConnectionLabel}

-- What `Reset` leaves.
abbrev pub reset : ConnectionLabel
reset = record { key = []; value = [] }

unfoldable pub get_key : Option ConnectionLabel → Bytes
get_key (some m) = m.key
get_key none = []

unfoldable pub get_value : Option ConnectionLabel → Bytes
get_value (some m) = m.value
get_value none = []
