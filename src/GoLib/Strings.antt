-- ===== src/GoLib/Strings.antt =====
-- Package strings: TrimPrefix, Replace with a limit of one, Split on a one-byte separator, Join.
pub mod Laws
use cnf_nsm.Common.{
  ℕ, zero, suc, Bool, true, false, ◌&&◌, ◌≡◌, List, [], ◌∷◌, ◌++◌, Option, none, some, ◌==◌, Bytes,
  if◌then◌else◌, refl, codes,
}

-- The rest of the text behind a prefix of it.
unfoldable pub cut_prefix : Bytes → Bytes → Option Bytes
cut_prefix [] s = some s
cut_prefix (c ∷ p) [] = none
cut_prefix (c ∷ p) (d ∷ s) = if c == d then cut_prefix p s else none

unfoldable pub trim_prefix : Bytes → Bytes → Bytes
trim_prefix s p = elim (cut_prefix p s) [ none ↦ s | some rest ↦ rest ]

-- `strings.Replace(s, old, new, 1)` for a nonempty `old`: the first occurrence.
unfoldable pub replace_first : Bytes → Bytes → Bytes → Bytes
unfolding cut_prefix
replace_first [] old new = []
replace_first (c ∷ s) old new = elim (cut_prefix old (c ∷ s)) [
  | some rest ↦ new ++ rest
  | none ↦ c ∷ replace_first s old new
]

-- A text in front of the first part.
unfoldable pub prepend : ℕ → List Bytes → List Bytes
prepend c [] = (c ∷ []) ∷ []
prepend c (p ∷ ps) = (c ∷ p) ∷ ps

unfoldable pub split : ℕ → Bytes → List Bytes
unfolding prepend
split sep [] = [] ∷ []
split sep (c ∷ s) = if c == sep then [] ∷ split sep s else prepend c (split sep s)

unfoldable pub join : ℕ → List Bytes → Bytes
join sep [] = []
join sep (p ∷ []) = p
join sep (p ∷ q ∷ ps) = p ++ sep ∷ join sep (q ∷ ps)

split_parts : split b'/' (codes "a//b") ≡ codes "a" ∷ [] ∷ codes "b" ∷ []
unfolding split
split_parts = refl

replace_once : replace_first (codes "a-b-b") (codes "-b") (codes "+") ≡ codes "a+-b"
unfolding replace_first
replace_once = refl
