-- ===== src/External.antt =====
-- Values that the NSM plugin exchanges with code outside the repository: the operating system, the NSM
-- SDK, and the configuration client of the ligato agent. Only what the plugin reads or sets is here.
pub mod Shared
pub mod Kinds
use cnf_nsm.Common.{Bytes, Bool, true, false, List, [], ◌∷◌, Option, ◌||◌, ◌&&◌, not, str_eq}
use cnf_nsm.Common.GoMap.{GoMap}
use cnf_nsm.Errors.{Error}

-- What the operating system answers during one call. `mkdir_all` returns the error, if there is one.
pub record Os : Type 0 where
  pub lookup_env : Bytes → Option Bytes
  pub mkdir_all : Bytes → Option Error

-- Constants of the NSM SDK.
pub record SdkNames : Type 0 where
  pub workspace_env : Bytes
  pub kernel_mechanism : Bytes
  pub memif_mechanism : Bytes
  pub interface_name_key : Bytes

-- A model that is registered with ligato: its keys, and the name of its message.
pub record Model : Type 0 where
  pub is_key_valid : Bytes → Bool
  pub proto_name : Bytes
  pub strip_key_prefix : Bytes → Bytes
  pub key_prefix : Bytes

-- The fields of `NSConfiguration` that the plugin sets or reads.
pub record NsConfiguration : Type 0 where
  pub mechanism_type : Bytes
  pub outgoing_nsc_name : Bytes
  pub outgoing_nsc_labels : Bytes
  pub advertise_nse_name : Bytes
  pub advertise_nse_labels : Bytes
  pub ip_address : Bytes
  pub nsm_client_socket : Bytes

-- An NSM connection, by what its getters answer. `socket_filename` is that of its memif mechanism.
pub record Connection : Type 0 where
  pub id : Bytes
  pub network_service : Bytes
  pub labels : GoMap Bytes
  pub parameters : GoMap Bytes
  pub socket_filename : Bytes

-- The interface messages of the ligato agent: an existing Linux interface, and a memif of VPP.
pub record LinuxInterface : Type 0 where
  pub name : Bytes
  pub host_if_name : Bytes
  pub enabled : Bool
  pub ip_addresses : List Bytes
  pub phys_address : Bytes

pub record MemifInterface : Type 0 where
  pub name : Bytes
  pub enabled : Bool
  pub ip_addresses : List Bytes
  pub phys_address : Bytes
  pub master : Bool
  pub socket_filename : Bytes

pub data InterfaceConfig : Type 0 where
  existing : LinuxInterface → InterfaceConfig
  memif : MemifInterface → InterfaceConfig

-- The kinds of interfaces that the agent tells apart: one of Linux and one of VPP may have one name.
pub data InterfaceKind : Type 0 where
  linux vpp : InterfaceKind

unfoldable pub same_kind : InterfaceKind → InterfaceKind → Bool
same_kind linux linux = true
same_kind vpp vpp = true
same_kind _ _ = false

abbrev pub config_kind : InterfaceConfig → InterfaceKind
config_kind (existing i) = linux
config_kind (memif i) = vpp

abbrev pub config_name : InterfaceConfig → Bytes
config_name (existing i) = i.name
config_name (memif i) = i.name

-- One request sent to the agent's local client. The plugin does not look at its outcome.
pub data ChangeRequest : Type 0 where
  update delete : List InterfaceConfig → ChangeRequest

unfoldable pub names_one : InterfaceKind → List InterfaceConfig → Bytes → Bool
names_one k [] n = false
names_one k (c ∷ cs) n = same_kind (config_kind c) k && str_eq (config_name c) n || names_one k cs n

-- Whether an interface of that kind and name is configured after the requests, the latest of which is the
-- first.
unfoldable pub configured : InterfaceKind → List ChangeRequest → Bytes → Bool
configured k [] n = false
configured k (update cs ∷ sent) n = names_one k cs n || configured k sent n
configured k (delete cs ∷ sent) n = not (names_one k cs n) && configured k sent n
