-- ===== src/Naming.antt =====
-- The helper functions of plugins/nsmplugin/descriptor/nsm_client.go and nsm_endpoint.go that both
-- descriptors share: mechanism, base directory, labels and dummy subnet.
pub mod Labels
pub mod Subnet
use cnf_nsm.Common.{
  ◌/◌, ◌%◌, ◌^◌, List, [], ◌∷◌, ◌++◌, Option, none, some, Bytes, codes, ltb, length, if◌then◌else◌,
}
use cnf_nsm.GoLib.Decimal.{itoa}
use cnf_nsm.GoLib.Fnv.{sum32a}
use cnf_nsm.Proto.{
  ConnectionInterfaceType, default_interface, kernel_interface, mem_interface, unnamed,
  ConnectionLabel,
}
use cnf_nsm.Errors.{Result, ok, err, env_not_defined}
use cnf_nsm.External.{Os, SdkNames}

abbrev pub nsm_invalid_mechanism : Bytes
nsm_invalid_mechanism = codes "<invalid>"

unfoldable pub nsm_mechanism_from_interface_type : SdkNames → ConnectionInterfaceType → Bytes
nsm_mechanism_from_interface_type names default_interface = names.kernel_mechanism
nsm_mechanism_from_interface_type names kernel_interface = names.kernel_mechanism
nsm_mechanism_from_interface_type names mem_interface = names.memif_mechanism
nsm_mechanism_from_interface_type names (unnamed _) = nsm_invalid_mechanism

or_undefined : Bytes → Option Bytes → Result Bytes
or_undefined name none = err (env_not_defined name)
or_undefined name (some base_dir) = ok base_dir

unfoldable pub nsm_base_dir : Os → SdkNames → Result Bytes
unfolding or_undefined
nsm_base_dir os names = or_undefined names.workspace_env (os.lookup_env names.workspace_env)

-- The loop over the labels, with the text built so far.
unfoldable pub add_labels : Bytes → List ConnectionLabel → Bytes
add_labels label_string [] = label_string
add_labels label_string (label ∷ labels) =
    let comma = if ltb 0 (length label_string) then label_string ++ codes "," else label_string in
    add_labels (comma ++ (label.key ++ codes "=" ++ label.value)) labels

unfoldable pub nsm_labels_from_proto : List ConnectionLabel → Bytes
nsm_labels_from_proto labels = add_labels [] labels

-- `hash % 256` and `(hash >> 8) % 256` of the FNV-1a hash of the name
unfoldable pub generate_dummy_subnet : Bytes → Bytes
generate_dummy_subnet connection_name =
    let hash = sum32a connection_name in
    codes "0."
    ++ (itoa (hash % 256) ++ (codes "." ++ (itoa ((hash / 2 ^ 8) % 256) ++ codes ".0/24")))
