-- ===== src/Proto.antt =====
-- The messages of proto/nsm/nsm.proto, in the generated proto/nsm/nsm.pb.go. The descriptors never
-- hold a nil pointer to a message, so there a getter is the field; `Getters` has the getters of a
-- pointer. An enum of proto3 is open: it holds any 32-bit number.
pub mod Getters
pub mod Names
use Prim.Native.Nat.{ℕ}
use cnf_nsm.Common.{Bytes, Bool, List}

pub data ConnectionInterfaceType : Type 0 where
  default_interface kernel_interface mem_interface : ConnectionInterfaceType
  -- a number that the enum does not name, as its 32-bit pattern
  unnamed : ℕ → ConnectionInterfaceType

pub record ConnectionLabel : Type 0 where
  pub key : Bytes
  pub value : Bytes

pub record NetworkServiceClient : Type 0 where
  pub name : Bytes
  pub network_service : Bytes
  pub outgoing_labels : List ConnectionLabel
  pub interface_name : Bytes
  pub interface_type : ConnectionInterfaceType
  pub ip_addresses : List Bytes
  pub phys_address : Bytes

pub record NetworkServiceEndpoint : Type 0 where
  pub network_service : Bytes
  pub advertised_labels : List ConnectionLabel
  pub single_client : Bool
  pub interface_name_prefix : Bytes
  pub interface_name_suffix_from_label : Bytes
  pub interface_type : ConnectionInterfaceType
  pub ip_addresses : List Bytes
  pub phys_address : Bytes
