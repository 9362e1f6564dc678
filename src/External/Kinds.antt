-- ===== src/External/Kinds.antt =====
-- The kind of interface that the types of the messages stand for.
use cnf_nsm.Common.{◌≡◌, refl, true}
use cnf_nsm.Proto.{
  ConnectionInterfaceType, default_interface, kernel_interface, mem_interface, unnamed,
}
use cnf_nsm.External.{InterfaceKind, linux, vpp, same_kind}

-- None is built for a type that the enum does not name.
abbrev pub interface_kind : ConnectionInterfaceType → InterfaceKind
interface_kind default_interface = linux
interface_kind kernel_interface = linux
interface_kind mem_interface = vpp
interface_kind (unnamed _) = linux

pub same_kind_refl : (k : InterfaceKind) → same_kind k k ≡ true
unfolding same_kind
same_kind_refl linux = refl
same_kind_refl vpp = refl
