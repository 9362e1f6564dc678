-- ===== src/Common/Index.antt =====
-- Indexing and slicing of Go slices by native numbers. An access out of range, which panics in Go,
-- is not made by the code that is modelled: every index stands behind a test of the length.
use Prim.Native.Nat.{ℕ, zero, suc, ◌+◌, ◌-◌, ◌<◌}
use mathlib.Core.Path.{◌≡◌, refl, ap}
use mathlib.Core.Logic.{◌≢◌}
use mathlib.Core.List.{List, [], ◌∷◌, ◌++◌}
use native.Mathlib.Omega.{arith}
use native.Mathlib.Nat.{zero-add}
use cnf_nsm.Common.Lists.{length}

module _ {ℓ} {A : Type ℓ} where
  abbrev pub get_or : List A → ℕ → A → A
  get_or [] i d = d
  get_or (x ∷ xs) zero d = x
  get_or (x ∷ xs) (suc i) d = get_or xs i d

  abbrev pub take : ℕ → List A → List A
  take zero xs = []
  take (suc n) [] = []
  take (suc n) (x ∷ xs) = x ∷ take n xs

  abbrev pub drop : ℕ → List A → List A
  drop zero xs = xs
  drop (suc n) [] = []
  drop (suc n) (x ∷ xs) = drop n xs

  -- `xs[lo:hi]`
  abbrev pub slice : ℕ → ℕ → List A → List A
  slice lo hi xs = take (hi - lo) (drop lo xs)

  pub get_or-append :
      (xs ys : List A) (d : A) (i j : ℕ) → i ≡ length xs + j → get_or (xs ++ ys) i d ≡ get_or ys j d
  get_or-append [] ys d i j h = rw h (rw zero-add)
  get_or-append (x ∷ xs) ys d zero j h = absurd (omega arith)
  get_or-append (x ∷ xs) ys d (suc i) j h = get_or-append xs ys d i j (omega arith)

  pub take-append : (xs ys : List A) (n : ℕ) → n ≡ length xs → take n (xs ++ ys) ≡ xs
  take-append [] ys n h = ground arith
  take-append (x ∷ xs) ys zero h = absurd (omega arith)
  take-append (x ∷ xs) ys (suc n) h = rw (take-append xs ys n (omega arith))

  pub get_or-append_left :
      (xs ys : List A) (d : A) (i : ℕ) → i < length xs → get_or (xs ++ ys) i d ≡ get_or xs i d
  get_or-append_left [] ys d i h = absurd (omega arith)
  get_or-append_left (x ∷ xs) ys d zero h = refl
  get_or-append_left (x ∷ xs) ys d (suc i) h = get_or-append_left xs ys d i (omega arith)

  -- `xs[i] = y`
  abbrev pub set_at : List A → ℕ → A → List A
  set_at [] i y = []
  set_at (x ∷ xs) zero y = y ∷ xs
  set_at (x ∷ xs) (suc i) y = x ∷ set_at xs i y

  pub get_or-set_at_other :
      (xs : List A) (i j : ℕ) (y d : A) → i ≢ j → get_or (set_at xs i y) j d ≡ get_or xs j d
  get_or-set_at_other [] i j y d h = refl
  get_or-set_at_other (x ∷ xs) zero zero y d h = absurd (h refl)
  get_or-set_at_other (x ∷ xs) zero (suc j) y d h = refl
  get_or-set_at_other (x ∷ xs) (suc i) zero y d h = refl
  get_or-set_at_other (x ∷ xs) (suc i) (suc j) y d h =
      get_or-set_at_other xs i j y d (λ e. h (ap suc e))
