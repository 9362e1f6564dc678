-- ===== src/Proto/Getters.antt =====
-- The getters of proto/nsm/nsm.pb.go, on a pointer to a message that may be nil.
pub mod Label
pub mod Client
pub mod Endpoint
use cnf_nsm.Common.{◌≡◌, refl, none, some}
use cnf_nsm.Proto.Getters.Label
use cnf_nsm.Proto.Getters.Client
use cnf_nsm.Proto.Getters.Endpoint

-- Reading a message through a nil pointer is reading a message that is reset, for each field of
-- a label, of a client and of an endpoint.
pub nil_getters :
    (Label.get_key none ≡ Label.get_key (some Label.reset))
    × (Label.get_value none ≡ Label.get_value (some Label.reset))
    × (Client.get_name none ≡ Client.get_name (some Client.reset))
    × (Client.get_network_service none ≡ Client.get_network_service (some Client.reset))
    × (Client.get_outgoing_labels none ≡ Client.get_outgoing_labels (some Client.reset))
    × (Client.get_interface_name none ≡ Client.get_interface_name (some Client.reset))
    × (Client.get_interface_type none ≡ Client.get_interface_type (some Client.reset))
    × (Client.get_ip_addresses none ≡ Client.get_ip_addresses (some Client.reset))
    × (Client.get_phys_address none ≡ Client.get_phys_address (some Client.reset))
    × (Endpoint.get_network_service none ≡ Endpoint.get_network_service (some Endpoint.reset))
    × (Endpoint.get_advertised_labels none ≡ Endpoint.get_advertised_labels (some Endpoint.reset))
    × (Endpoint.get_single_client none ≡ Endpoint.get_single_client (some Endpoint.reset))
    × (Endpoint.get_interface_name_prefix none
        ≡ Endpoint.get_interface_name_prefix (some Endpoint.reset))
    × (Endpoint.get_interface_name_suffix_from_label none
        ≡ Endpoint.get_interface_name_suffix_from_label (some Endpoint.reset))
    × (Endpoint.get_interface_type none ≡ Endpoint.get_interface_type (some Endpoint.reset))
    × (Endpoint.get_ip_addresses none ≡ Endpoint.get_ip_addresses (some Endpoint.reset))
    × (Endpoint.get_phys_address none ≡ Endpoint.get_phys_address (some Endpoint.reset))
unfolding Label.get_key Label.get_value Client.get_name Client.get_network_service
    Client.get_outgoing_labels Client.get_interface_name Client.get_interface_type
    Client.get_ip_addresses Client.get_phys_address Endpoint.get_network_service
    Endpoint.get_advertised_labels Endpoint.get_single_client Endpoint.get_interface_name_prefix
    Endpoint.get_interface_name_suffix_from_label Endpoint.get_interface_type
    Endpoint.get_ip_addresses Endpoint.get_phys_address
nil_getters = (
  refl, refl, refl, refl, refl, refl, refl, refl, refl, refl, refl, refl, refl, refl, refl, refl,
  refl,
)
