-- ===== src/GoLib/Strings/Laws.antt =====
-- Laws of the functions of package strings.
use cnf_nsm.Common.{ℕ, ◌≡◌, ◌≢◌, refl, List, [], ◌∷◌, ◌++◌, some, Bytes, arith, All}
use mathlib.Core.Path.{subst}
use cnf_nsm.GoLib.Strings.{cut_prefix, trim_prefix, replace_first, prepend, split, join}

abbrev pub Lacks : ℕ → Bytes → Type 0
Lacks b = All (λ c. c ≢ b)

pub cut_prefix-append : (p s : Bytes) → cut_prefix p (p ++ s) ≡ some s
unfolding cut_prefix
cut_prefix-append [] s = refl
cut_prefix-append (c ∷ p) s = ground (arith, cut_prefix-append p s)

-- What is left behind a prefix is what the text has after it.
pub cut_prefix_sound : (p s rest : Bytes) → cut_prefix p s ≡ some rest → s ≡ p ++ rest
unfolding cut_prefix
cut_prefix_sound [] s rest h = ground arith
cut_prefix_sound (c ∷ p) [] rest h = cc
cut_prefix_sound (c ∷ p) (d ∷ s) rest h = ground (arith, cut_prefix_sound p s rest)

pub trim_prefix-append : (p s : Bytes) → trim_prefix (p ++ s) p ≡ s
unfolding trim_prefix
trim_prefix-append p s = rw (cut_prefix-append p s, trim_prefix)

-- Text that lacks the first byte of what is sought is passed over.
pub replace_first_skip :
    (s rest : Bytes) (c : ℕ) (old new : Bytes)
    → Lacks c s
    → replace_first (s ++ rest) (c ∷ old) new ≡ s ++ replace_first rest (c ∷ old) new
unfolding replace_first
replace_first_skip [] rest c old new h = refl
replace_first_skip (d ∷ s) rest c old new h =
    ground (arith, replace_first_skip s rest c old new h.1)

pub replace_first_at :
    (c : ℕ) (old new rest : Bytes) → replace_first (c ∷ old ++ rest) (c ∷ old) new ≡ new ++ rest
unfolding replace_first
replace_first_at c old new rest = ground (arith, cut_prefix-append old rest)

prepend-ne-nil : (c : ℕ) (ps : List Bytes) → prepend c ps ≢ []
unfolding prepend
prepend-ne-nil c [] h = cc
prepend-ne-nil c (p ∷ ps) h = cc

pub split-ne-nil : (sep : ℕ) (s : Bytes) → split sep s ≢ []
unfolding split
split-ne-nil sep [] h = cc
split-ne-nil sep (c ∷ s) h = ground (arith, prepend-ne-nil c (split sep s))

-- A part without the separator, with a separator behind it, is the first part.
pub split_part : (sep : ℕ) (p s : Bytes) → Lacks sep p → split sep (p ++ sep ∷ s) ≡ p ∷ split sep s
unfolding split
split_part sep [] s h = ground arith
split_part sep (c ∷ p) s h = ground (arith, split_part sep p s h.1)

prepend-append : (c : ℕ) (ps qs : List Bytes) → ps ≢ [] → prepend c (ps ++ qs) ≡ prepend c ps ++ qs
unfolding prepend
prepend-append c [] qs h = absurd (h refl)
prepend-append c (p ∷ ps) qs h = refl

-- A separator cuts the text in two.
pub split_at : (sep : ℕ) (s t : Bytes) → split sep (s ++ sep ∷ t) ≡ split sep s ++ split sep t
unfolding split
split_at sep [] t = ground arith
split_at sep (c ∷ s) t =
    ground
      (arith, split_at sep s t, prepend-append c (split sep s) (split sep t), split-ne-nil sep s)

pub split_last : (sep : ℕ) (p : Bytes) → Lacks sep p → split sep p ≡ p ∷ []
unfolding split
split_last sep [] h = refl
split_last sep (c ∷ p) h = ground (arith, split_last sep p h.1)

join-prepend : (sep c : ℕ) (ps : List Bytes) → ps ≢ [] → join sep (prepend c ps) ≡ c ∷ join sep ps
unfolding join prepend
join-prepend sep c [] h = absurd (h refl)
join-prepend sep c (p ∷ []) h = refl
join-prepend sep c (p ∷ q ∷ ps) h = refl

join_nil : (sep : ℕ) (ps : List Bytes) → ps ≢ [] → join sep ([] ∷ ps) ≡ sep ∷ join sep ps
unfolding join
join_nil sep [] h = absurd (h refl)
join_nil sep (p ∷ ps) h = refl

pub join-split : (sep : ℕ) (s : Bytes) → join sep (split sep s) ≡ s
unfolding split
join-split sep [] = unfold join in refl
join-split sep (c ∷ s) = ground (
  arith,
  join_nil sep (split sep s),
  join-prepend sep c (split sep s),
  split-ne-nil sep s,
  join-split sep s,
)

Lacks-mid : (b : ℕ) (s u : Bytes) → Lacks b (s ++ b ∷ u) → ⊥
Lacks-mid b [] u h = h.0 refl
Lacks-mid b (c ∷ s) u h = Lacks-mid b s u h.1

-- The last separator of a text cuts it in one way.
pub last_separator :
    (b : ℕ) (s t u v : Bytes) → Lacks b u → Lacks b v → s ++ b ∷ u ≡ t ++ b ∷ v → (s ≡ t) × (u ≡ v)
last_separator b [] [] u v hu hv h = (refl, cc)
last_separator b [] (c ∷ t) u v hu hv h = absurd (Lacks-mid b t v (subst (Lacks b) (the_tail h) hu))
  where
    the_tail : b ∷ u ≡ c ∷ (t ++ b ∷ v) → u ≡ t ++ b ∷ v
    the_tail e = cc
last_separator b (c ∷ s) [] u v hu hv h = absurd (Lacks-mid b s u (subst (Lacks b) (the_tail h) hv))
  where
    the_tail : c ∷ (s ++ b ∷ u) ≡ b ∷ v → v ≡ s ++ b ∷ u
    the_tail e = cc
last_separator b (c ∷ s) (d ∷ t) u v hu hv h =
    let (fronts, backs) = last_separator b s t u v hu hv (cc) in (cc, backs)
