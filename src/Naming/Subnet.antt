-- ===== src/Naming/Subnet.antt =====
-- The dummy subnets.
use cnf_nsm.Common.{
  ◌/◌, ◌%◌, ◌^◌, ◌≡◌, ◌↔◌, [], ◌∷◌, ◌++◌, Bytes, codes, arith, All, append-left_cancel,
}
use cnf_nsm.GoLib.Decimal.{itoa, itoa_injective, itoa-IsDigit, IsDigit}
use cnf_nsm.GoLib.Fnv.{sum32a}
use cnf_nsm.Naming.{generate_dummy_subnet}

-- A run of digits ends where the first other byte stands.
digits_cancel :
    (s t u v : Bytes)
    → All IsDigit s
    → All IsDigit t
    → s ++ b'.' ∷ u ≡ t ++ b'.' ∷ v
    → (s ≡ t) × (u ≡ v)
digits_cancel [] [] u v hs ht e = ground arith
digits_cancel [] (d ∷ t) u v hs ht e = ground arith
digits_cancel (c ∷ s) [] u v hs ht e = ground arith
digits_cancel (c ∷ s) (d ∷ t) u v hs ht e = ground (arith, digits_cancel s t u v)

-- Two names get the same subnet exactly when the low 16 bits of their hashes agree.
pub generate_dummy_subnet_iff :
    (m n : Bytes)
    → (generate_dummy_subnet m ≡ generate_dummy_subnet n) ↔ (sum32a m % 2 ^ 16 ≡ sum32a n % 2 ^ 16)
unfolding generate_dummy_subnet
generate_dummy_subnet_iff m n = (same_bits, same_text)
  where
    same_bits :
        generate_dummy_subnet m ≡ generate_dummy_subnet n → sum32a m % 2 ^ 16 ≡ sum32a n % 2 ^ 16
    same_bits e =
        let (low, rest) =
          digits_cancel (itoa (sum32a m % 256)) (itoa (sum32a n % 256)) _ _ (itoa-IsDigit _)
            (itoa-IsDigit _) (append-left_cancel (codes "0.") _ _ e) in
        let (high, _) =
          digits_cancel (itoa (sum32a m / 2 ^ 8 % 256)) (itoa (sum32a n / 2 ^ 8 % 256)) _ _
            (itoa-IsDigit _) (itoa-IsDigit _) rest in
        omega (arith, itoa_injective _ _ low, itoa_injective _ _ high)

    same_text :
        sum32a m % 2 ^ 16 ≡ sum32a n % 2 ^ 16 → generate_dummy_subnet m ≡ generate_dummy_subnet n
    same_text h =
        let low : sum32a m % 256 ≡ sum32a n % 256 = omega arith in
        let high : sum32a m / 2 ^ 8 % 256 ≡ sum32a n / 2 ^ 8 % 256 = omega arith in rw (low, high)
