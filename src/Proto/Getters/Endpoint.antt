-- ===== src/Proto/Getters/Endpoint.antt =====
-- The getters of `NetworkServiceEndpoint`.
use cnf_nsm.Common.{Bool, false, List, [], Option, none, some, Bytes}
use cnf_nsm.Proto.{
  ConnectionInterfaceType, default_interface, ConnectionLabel, NetworkServiceEndpoint,
}

-- What `Reset` leaves.
abbrev pub reset : NetworkServiceEndpoint
reset = record {
  network_service = [];
  advertised_labels = [];
  single_client = false;
  interface_name_prefix = [];
  interface_name_suffix_from_label = [];
  interface_type = default_interface;
  ip_addresses = [];
  phys_address = [];
}

unfoldable pub get_network_service : Option NetworkServiceEndpoint → Bytes
get_network_service (some m) = m.network_service
get_network_service none = []

unfoldable pub get_advertised_labels : Option NetworkServiceEndpoint → List ConnectionLabel
get_advertised_labels (some m) = m.advertised_labels
get_advertised_labels none = []

unfoldable pub get_single_client : Option NetworkServiceEndpoint → Bool
get_single_client (some m) = m.single_client
get_single_client none = false

unfoldable pub get_interface_name_prefix : Option NetworkServiceEndpoint → Bytes
get_interface_name_prefix (some m) = m.interface_name_prefix
get_interface_name_prefix none = []

unfoldable pub get_interface_name_suffix_from_label : Option NetworkServiceEndpoint → Bytes
get_interface_name_suffix_from_label (some m) = m.interface_name_suffix_from_label
get_interface_name_suffix_from_label none = []

unfoldable pub get_interface_type : Option NetworkServiceEndpoint → ConnectionInterfaceType
get_interface_type (some m) = m.interface_type
get_interface_type none = default_interface

unfoldable pub get_ip_addresses : Option NetworkServiceEndpoint → List Bytes
get_ip_addresses (some m) = m.ip_addresses
get_ip_addresses none = []

unfoldable pub get_phys_address : Option NetworkServiceEndpoint → Bytes
get_phys_address (some m) = m.phys_address
get_phys_address none = []
