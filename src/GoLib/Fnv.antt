-- ===== src/GoLib/Fnv.antt =====
-- Package hash/fnv: the 32-bit FNV-1a hash of a whole text.
use Prim.Native.Nat.{bit_xor}
use cnf_nsm.Common.{ℕ, ◌*◌, ◌%◌, ◌^◌, ◌<◌, ◌≡◌, refl, [], ◌∷◌, Bytes, codes, arith}

-- One byte: `hash ^= b; hash *= 16777619`, in 32 bits.
mix : ℕ → ℕ → ℕ
mix hash b = (bit_xor hash b * 16777619) % 2 ^ 32

sum_from : ℕ → Bytes → ℕ
unfolding mix
sum_from hash [] = hash
sum_from hash (b ∷ s) = sum_from (mix hash b) s

unfoldable pub sum32a : Bytes → ℕ
unfolding sum_from
sum32a s = sum_from 2166136261 s

sum_from_bound : (s : Bytes) (hash : ℕ) → hash < 2 ^ 32 → sum_from hash s < 2 ^ 32
unfolding sum_from
sum_from_bound [] hash h = h
sum_from_bound (b ∷ s) hash h = sum_from_bound s (mix hash b) (omega arith)

pub sum32a_bound : (s : Bytes) → sum32a s < 2 ^ 32
unfolding sum32a
sum32a_bound s = sum_from_bound s 2166136261 (omega arith)

-- The published check values of the hash.
sum32a_values : (sum32a [] ≡ 0x811c9dc5) × (sum32a (codes "foobar") ≡ 0xbf9cf968)
unfolding sum32a
sum32a_values = (refl, refl)
