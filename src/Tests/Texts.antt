-- ===== src/Tests/Texts.antt =====
-- Witnesses for keys, labels and subnets.
use cnf_nsm.Common.{◌≡◌, [], ◌∷◌, none, codes, List}
use cnf_nsm.Proto.{ConnectionLabel}
use cnf_nsm.Keys.{endpoint_notification_key, parse_endpoint_notification_key}
use cnf_nsm.Keys.Parse.{parse_endpoint_notification_key-none}

parse_endpoint_notification_key-none_example :
    parse_endpoint_notification_key
      (endpoint_notification_key (codes "fw") (codes "app") (codes "cnf"))
    ≡ none
parse_endpoint_notification_key-none_example =
    parse_endpoint_notification_key-none
      (endpoint_notification_key (codes "fw") (codes "app") (codes "cnf"))

abbrev two_labels : List ConnectionLabel
two_labels =
    record { key = codes "a"; value = codes "1" }
    ∷ record { key = codes "b"; value = codes "2" }
    ∷ []
