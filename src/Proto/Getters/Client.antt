-- ===== src/Proto/Getters/Client.antt =====
-- The getters of `NetworkServiceClient`.
use cnf_nsm.Common.{List, [], Option, none, some, Bytes}
use cnf_nsm.Proto.{
  ConnectionInterfaceType, default_interface, ConnectionLabel, NetworkServiceClient,
}

-- What `Reset` leaves.
abbrev pub reset : NetworkServiceClient
reset = record {
  name = [];
  network_service = [];
  outgoing_labels = [];
  interface_name = [];
  interface_type = default_interface;
  ip_addresses = [];
  phys_address = [];
}

unfoldable pub get_name : Option NetworkServiceClient → Bytes
get_name (some m) = m.name
get_name none = []

unfoldable pub get_network_service : Option NetworkServiceClient → Bytes
get_network_service (some m) = m.network_service
get_network_service none = []

unfoldable pub get_outgoing_labels : Option NetworkServiceClient → List ConnectionLabel
get_outgoing_labels (some m) = m.outgoing_labels
get_outgoing_labels none = []

unfoldable pub get_interface_name : Option NetworkServiceClient → Bytes
get_interface_name (some m) = m.interface_name
get_interface_name none = []

unfoldable pub get_interface_type : Option NetworkServiceClient → ConnectionInterfaceType
get_interface_type (some m) = m.interface_type
get_interface_type none = default_interface

unfoldable pub get_ip_addresses : Option NetworkServiceClient → List Bytes
get_ip_addresses (some m) = m.ip_addresses
get_ip_addresses none = []

unfoldable pub get_phys_address : Option NetworkServiceClient → Bytes
get_phys_address (some m) = m.phys_address
get_phys_address none = []
