-- ===== src/Endpoint/Names.antt =====
-- The names of the interfaces of the open connections, where names end in indexes.
use cnf_nsm.Common.{
  str_eq_refl, ℕ, ◌≡◌, ◌≢◌, refl, sym, ◌∙◌, Bool, true, false, not, ◌&&◌, ◌||◌, [], ◌∷◌, ◌++◌, none,
  some, Bytes, arith, str_eq, str_eq_iff, append-left_cancel, Bool-cases, inl, inr,
}
use cnf_nsm.Common.GoMap.{GoMap, lookup, erase, lookup-erase, erase_absent}
use cnf_nsm.GoLib.Decimal.{itoa, itoa_injective}
use cnf_nsm.Endpoint.{NsmConnection, uses_connection_index}

-- Each identifier is bound once.
abbrev pub HasDistinctIds : GoMap NsmConnection → Type 0
HasDistinctIds [] = Unit
HasDistinctIds ((id, c) ∷ m) = (lookup id m ≡ none) × HasDistinctIds m

-- No two connections have one index.
abbrev pub HasDistinctIndexes : GoMap NsmConnection → Type 0
HasDistinctIndexes [] = Unit
HasDistinctIndexes ((id, c) ∷ m) = (uses_connection_index m c.index ≡ false) × HasDistinctIndexes m

-- A connection is bound to its own identifier.
abbrev pub IsKeyed : GoMap NsmConnection → Type 0
IsKeyed [] = Unit
IsKeyed ((id, c) ∷ m) = (id ≡ c.conn.id) × IsKeyed m

-- Whether an open connection has the name, which is the prefix and the connection's index.
unfoldable pub open_name : Bytes → GoMap NsmConnection → Bytes → Bool
open_name prefix [] n = false
open_name prefix ((id, c) ∷ m) n = str_eq (prefix ++ itoa c.index) n || open_name prefix m n

pub HasDistinctIds-erase :
    (k : Bytes) (m : GoMap NsmConnection) → HasDistinctIds m → HasDistinctIds (erase k m)
unfolding erase
HasDistinctIds-erase k [] h = tt
HasDistinctIds-erase k ((id, c) ∷ m) h =
    ground (arith, lookup-erase k id m, HasDistinctIds-erase k m h.1)

pub IsKeyed-erase : (k : Bytes) (m : GoMap NsmConnection) → IsKeyed m → IsKeyed (erase k m)
unfolding erase
IsKeyed-erase k [] h = tt
IsKeyed-erase k ((id, c) ∷ m) h = ground (arith, IsKeyed-erase k m h.1)

pub uses-erase :
    (k : Bytes) (m : GoMap NsmConnection) (i : ℕ)
    → uses_connection_index m i ≡ false
    → uses_connection_index (erase k m) i ≡ false
unfolding erase uses_connection_index
uses-erase k [] i h = refl
uses-erase k ((id, c) ∷ m) i h = ground (arith, uses-erase k m i)

pub HasDistinctIndexes-erase :
    (k : Bytes) (m : GoMap NsmConnection) → HasDistinctIndexes m → HasDistinctIndexes (erase k m)
unfolding erase
HasDistinctIndexes-erase k [] h = tt
HasDistinctIndexes-erase k ((id, c) ∷ m) h =
    ground (arith, uses-erase k m c.index h.0, HasDistinctIndexes-erase k m h.1)

-- Names with one prefix are equal only for equal indexes.
same_index :
    (p n : Bytes) (i j : ℕ) → str_eq (p ++ itoa i) n ≡ true → str_eq (p ++ itoa j) n ≡ true → i ≡ j
same_index p n i j hi hj =
    itoa_injective i j
      (append-left_cancel p _ _ ((str_eq_iff _ n).0 hi ∙ sym ((str_eq_iff _ n).0 hj)))

pub open_name_free :
    (p n : Bytes) (m : GoMap NsmConnection) (i : ℕ)
    → uses_connection_index m i ≡ false
    → str_eq (p ++ itoa i) n ≡ true
    → open_name p m n ≡ false
unfolding open_name uses_connection_index
open_name_free p n [] i h e = refl
open_name_free p n ((id, c) ∷ m) i h e =
    ground (arith, open_name_free p n m i, same_index p n i c.index e)

index_differs :
    (k : Bytes) (m : GoMap NsmConnection) (c : NsmConnection) (i : ℕ)
    → lookup k m ≡ some c
    → uses_connection_index m i ≡ false
    → i ≢ c.index
unfolding lookup uses_connection_index
index_differs k [] c i h free = cc
index_differs k ((id, d) ∷ m) c i h free = ground (arith, index_differs k m c i)

-- Erasing a connection takes its name away, and no other.
pub open_name-erase :
    (p k n : Bytes) (m : GoMap NsmConnection) (c : NsmConnection)
    → lookup k m ≡ some c
    → HasDistinctIds m
    → HasDistinctIndexes m
    → open_name p (erase k m) n ≡ (not (str_eq (p ++ itoa c.index) n) && open_name p m n)
unfolding open_name erase lookup
open_name-erase p k n [] c h ids indexes = cc
open_name-erase p k n ((id, d) ∷ m) c h ids indexes = elim (Bool-cases (str_eq id k)) [
  | inl same ↦
      ground (arith, str_eq_iff id k, erase_absent k m, open_name_free p n m d.index indexes.0)
  | inr other ↦ ground (
    arith,
    open_name-erase p k n m c,
    index_differs k m c d.index,
    same_index p n d.index c.index,
  )
]

-- The name of an open connection is open.
pub open_name-lookup :
    (p k : Bytes) (m : GoMap NsmConnection) (c : NsmConnection)
    → lookup k m ≡ some c
    → open_name p m (p ++ itoa c.index) ≡ true
unfolding open_name lookup
open_name-lookup p k [] c h = cc
open_name-lookup p k ((id, d) ∷ m) c h = elim (Bool-cases (str_eq id k)) [
  | inl same ↦
      let equal : d ≡ c = ground arith in rw equal (rw (str_eq_refl (p ++ itoa c.index)) refl)
  | inr other ↦
      let found : lookup k m ≡ some c = ground arith in
      rw (open_name-lookup p k m c found)
        (elim (Bool-cases (str_eq (p ++ itoa d.index) (p ++ itoa c.index))) [
          | inl t ↦ rw t refl
          | inr f ↦ rw f refl
        ])
]

indexes_differ :
    (k j : Bytes) (m : GoMap NsmConnection) (c b : NsmConnection)
    → lookup k m ≡ some c
    → lookup j m ≡ some b
    → k ≢ j
    → HasDistinctIndexes m
    → c.index ≢ b.index
unfolding lookup
indexes_differ k j [] c b at there other distinct = cc
indexes_differ k j ((id, d) ∷ m) c b at there other distinct = ground (
  arith,
  str_eq_iff id k,
  str_eq_iff id j,
  index_differs k m c d.index,
  index_differs j m b d.index,
  indexes_differ k j m c b,
)

-- Connections of different clients have different indexes, and so different names.
pub names_differ :
    (p k j : Bytes) (m : GoMap NsmConnection) (c b : NsmConnection)
    → lookup k m ≡ some c
    → lookup j m ≡ some b
    → k ≢ j
    → HasDistinctIndexes m
    → p ++ itoa c.index ≢ p ++ itoa b.index
names_differ p k j m c b at there other distinct same =
    indexes_differ k j m c b at there other distinct
      (itoa_injective c.index b.index (append-left_cancel p _ _ same))
