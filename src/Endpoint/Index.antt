-- ===== src/Endpoint/Index.antt =====
-- The index that `allocateConnectionIndex` finds.
use cnf_nsm.Common.{
  ℕ, zero, suc, ◌+◌, ◌≤◌, ◌<◌, ◌≡◌, true, false, not, ◌&&◌, [], ◌∷◌, arith, ◌==◌, if◌then◌else◌,
  length, Bool-cases, inl, inr,
}
use cnf_nsm.Common.GoMap.{GoMap}
use cnf_nsm.Endpoint.{
  NsmConnection, NsmEndpoint, uses_connection_index, next_free, allocate_connection_index,
}

-- The connections with another index.
without_index : ℕ → GoMap NsmConnection → GoMap NsmConnection
without_index i [] = []
without_index i ((id, c) ∷ m) =
    if i == c.index then without_index i m else (id, c) ∷ without_index i m

uses-without_index :
    (m : GoMap NsmConnection) (i j : ℕ)
    → uses_connection_index (without_index i m) j ≡ (not (i == j) && uses_connection_index m j)
unfolding without_index uses_connection_index
uses-without_index [] i j = ground arith
uses-without_index ((id, c) ∷ m) i j = ground (arith, uses-without_index m i j)

length-without_index-le : (m : GoMap NsmConnection) (i : ℕ) → length (without_index i m) ≤ length m
unfolding without_index
length-without_index-le [] i = omega arith
length-without_index-le ((id, c) ∷ m) i = ground (arith, length-without_index-le m i)

length-without_index-lt :
    (m : GoMap NsmConnection) (i : ℕ)
    → uses_connection_index m i ≡ true
    → length (without_index i m) < length m
unfolding without_index uses_connection_index
length-without_index-lt [] i h = cc
length-without_index-lt ((id, c) ∷ m) i h =
    ground (arith, length-without_index-lt m i, length-without_index-le m i)

abbrev AllUsed : GoMap NsmConnection → ℕ → Type 0
AllUsed m k = (j : ℕ) → j < k → uses_connection_index m j ≡ true

-- `k` indexes in use stand in at least `k` connections.
AllUsed-le : (k : ℕ) (m : GoMap NsmConnection) → AllUsed m k → k ≤ length m
AllUsed-le zero m h = omega arith
AllUsed-le (suc k) m h =
    omega (
      arith,
      length-without_index-lt m k (h k (omega arith)),
      AllUsed-le k (without_index k m) rest,
    )
  where
    rest : AllUsed (without_index k m) k
    rest j lt = ground (arith, uses-without_index m k j, h j (omega arith))

AllUsed-suc :
    (m : GoMap NsmConnection) (k : ℕ)
    → AllUsed m k
    → uses_connection_index m k ≡ true
    → AllUsed m (suc k)
AllUsed-suc m k h used j lt = elim (Bool-cases (j == k)) [
  | inl e ↦ ground arith
  | inr n ↦ h j (ground arith)
]

-- An index is the least that no connection uses.
pub record IsLeastFree (m : GoMap NsmConnection) (i : ℕ) : Type 0 where
  pub free : uses_connection_index m i ≡ false
  pub least : (j : ℕ) → j < i → uses_connection_index m j ≡ true

next_free-IsLeastFree :
    (fuel : ℕ) (m : GoMap NsmConnection) (index : ℕ)
    → index + fuel ≡ suc (length m)
    → AllUsed m index
    → IsLeastFree m (next_free fuel m index)
unfolding next_free
next_free-IsLeastFree zero m index e h = absurd (omega (arith, AllUsed-le index m h))
next_free-IsLeastFree (suc fuel) m index e h = elim (Bool-cases (uses_connection_index m index)) [
  | inl used ↦
      rw used (next_free-IsLeastFree fuel m (suc index) (omega arith) (AllUsed-suc m index h used))
  | inr free ↦ rw free (record { free = free; least = h })
]

-- The loop ends within its fuel, at the least index that no connection uses, and that index is at
-- most the number of connections.
pub allocate_connection_index_lem :
    (e : NsmEndpoint)
    → IsLeastFree e.connections (allocate_connection_index e)
      × (allocate_connection_index e ≤ length e.connections)
unfolding allocate_connection_index
allocate_connection_index_lem e =
    let found =
      next_free-IsLeastFree (suc (length e.connections)) e.connections 0 (omega arith)
        (λ j lt. absurd (omega arith)) in
    (found, AllUsed-le _ e.connections found.least)
