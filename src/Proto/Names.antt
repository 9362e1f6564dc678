-- ===== src/Proto/Names.antt =====
-- The names of the enum of proto/nsm/nsm.pb.go, and its numbers.
use cnf_nsm.Common.{
  ℕ, ◌≡◌, ◌↔◌, refl, false, List, [], ◌∷◌, Option, none, some, Bytes, codes, arith, ◌==◌, str_eq,
  str_eq_iff, if◌then◌else◌, or_else,
}
use cnf_nsm.Common.GoMap.{GoMap, lookup}
use cnf_nsm.Proto.{
  ConnectionInterfaceType, default_interface, kernel_interface, mem_interface, unnamed,
}

-- A type of interfaces as a number, and the type of a number.
unfoldable pub number_of : ConnectionInterfaceType → ℕ
number_of default_interface = 0
number_of kernel_interface = 1
number_of mem_interface = 3
number_of (unnamed n) = n

unfoldable pub type_of : ℕ → ConnectionInterfaceType
type_of n =
    if n == 0
    then default_interface
    else if n == 1
    then kernel_interface
    else if n == 3
    then mem_interface
    else unnamed n

abbrev pub connection_interface_type_name : List (ℕ × Bytes)
connection_interface_type_name =
    (0, codes "DEFAULT_INTERFACE") ∷ (1, codes "KERNEL_INTERFACE") ∷ (3, codes "MEM_INTERFACE") ∷ []

abbrev pub connection_interface_type_value : GoMap ℕ
connection_interface_type_value =
    (codes "DEFAULT_INTERFACE", 0) ∷ (codes "KERNEL_INTERFACE", 1) ∷ (codes "MEM_INTERFACE", 3) ∷ []

unfoldable pub name_at : List (ℕ × Bytes) → ℕ → Option Bytes
name_at [] n = none
name_at ((k, name) ∷ names) n = if k == n then some name else name_at names n

-- `String`, where `proto.EnumName` is documented to give the number of a value that has no name.
unfoldable pub string_of : (ℕ → Bytes) → ConnectionInterfaceType → Bytes
string_of decimal x =
    or_else (name_at connection_interface_type_name (number_of x)) (decimal (number_of x))

-- A table of three entries and its inverse, for three different names.
three_entries :
    (a b c s : Bytes) (n : ℕ)
    → str_eq a b ≡ false
    → str_eq a c ≡ false
    → str_eq b c ≡ false
    → (name_at ((0, a) ∷ (1, b) ∷ (3, c) ∷ []) n ≡ some s)
      ↔ (lookup s ((a, 0) ∷ (b, 1) ∷ (c, 3) ∷ []) ≡ some n)
unfolding name_at lookup
three_entries a b c s n ab ac bc = ground (
  arith,
  str_eq_iff a s,
  str_eq_iff b s,
  str_eq_iff c s,
  str_eq_iff a b,
  str_eq_iff a c,
  str_eq_iff b c,
)

-- The two maps of the enum are inverse to each other: a number has a name exactly if that name has the
-- number.
pub name_value :
    (n : ℕ) (s : Bytes)
    → (name_at connection_interface_type_name n ≡ some s)
      ↔ (lookup s connection_interface_type_value ≡ some n)
unfolding str_eq
name_value n s = three_entries _ _ _ s n refl refl refl

-- A type of interfaces that is named is the type of its number, and a number is that of its type.
pub number_type : (n : ℕ) → number_of (type_of n) ≡ n
unfolding number_of type_of
number_type n = ground arith
