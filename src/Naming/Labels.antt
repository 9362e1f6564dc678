-- ===== src/Naming/Labels.antt =====
-- The text of a list of labels.
use cnf_nsm.Common.{
  ℕ, ◌∙◌, ◌≡◌, refl, sym, List, [], ◌∷◌, ◌++◌, map, Bytes, codes, arith, append_assoc, ◌≢◌,
}
use cnf_nsm.GoLib.Strings.{join}
use cnf_nsm.Proto.{ConnectionLabel}
use cnf_nsm.Naming.{add_labels, nsm_labels_from_proto}

abbrev pub assignment : ConnectionLabel → Bytes
assignment label = label.key ++ codes "=" ++ label.value

cons_suffix : (s t : Bytes) (c : ℕ) → s ++ c ∷ t ≢ []
cons_suffix [] t c h = cc
cons_suffix (d ∷ s) t c h = cc

assignment-ne-nil : (l : ConnectionLabel) → assignment l ≢ []
assignment-ne-nil l h =
    cons_suffix l.key l.value b'=' (sym (append_assoc l.key (codes "=") l.value) ∙ h)

-- with a text before it, each further label stands behind a comma
add_labels-join :
    (s : Bytes) (l : ConnectionLabel) (ls : List ConnectionLabel)
    → s ≢ []
    → add_labels s (l ∷ ls) ≡ s ++ b',' ∷ join b',' (map assignment (l ∷ ls))
unfolding add_labels join
add_labels-join [] l ls h = absurd (h refl)
add_labels-join (c ∷ s) l [] h = ground (arith, append_assoc s (codes ",") (assignment l))
add_labels-join (c ∷ s) l (k ∷ ls) h = ground (
  arith,
  append_assoc s (codes ",") (assignment l),
  add_labels-join ((c ∷ s) ++ codes "," ++ assignment l) k ls,
  append_assoc s (b',' ∷ assignment l) (b',' ∷ join b',' (map assignment (k ∷ ls))),
)

-- The text is the assignments `key=value` of the labels in their order, joined by commas.
pub nsm_labels_from_proto_lem :
    (labels : List ConnectionLabel)
    → nsm_labels_from_proto labels ≡ join b',' (map assignment labels)
unfolding nsm_labels_from_proto add_labels join
nsm_labels_from_proto_lem [] = refl
nsm_labels_from_proto_lem (l ∷ []) = refl
nsm_labels_from_proto_lem (l ∷ k ∷ ls) = add_labels-join (assignment l) k ls (assignment-ne-nil l)
