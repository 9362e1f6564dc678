-- ===== src/GoLib/Decimal.antt =====
-- strconv.Itoa on numbers that are not negative.
use cnf_nsm.Common.{
  ℕ, zero, suc, ◌+◌, ◌-◌, ◌*◌, ◌/◌, ◌%◌, ◌<◌, ◌≤◌, ◌≡◌, ◌∙◌, sym, ap, refl, [], ◌∷◌, Bytes, arith,
  ltb, All, if◌then◌else◌, codes,
}

-- The digits of `n` in front of `out`; the fuel `n + 1` is more than the number of digits.
digits : ℕ → ℕ → Bytes → Bytes
digits zero n out = out
digits (suc f) n out =
    let out' = (b'0' + n % 10) ∷ out in
    let more = digits f (n / 10) out' in if ltb n 10 then out' else more

unfoldable pub itoa : ℕ → Bytes
unfolding digits
itoa n = digits (suc n) n []

-- The number that digits spell behind `n`.
number : ℕ → Bytes → ℕ
number n [] = n
number n (c ∷ s) = number (n * 10 + (c - b'0')) s

number-digits : (f n : ℕ) (out : Bytes) → n < f → number 0 (digits f n out) ≡ number n out
unfolding digits number
number-digits zero n out h = absurd (omega arith)
number-digits (suc f) n out h = ground (arith, number-digits f (n / 10) ((b'0' + n % 10) ∷ out))

number-itoa : (n : ℕ) → number 0 (itoa n) ≡ n
unfolding itoa
number-itoa n = unfold number in number-digits (suc n) n [] (omega arith)

-- Two numbers that print alike are equal.
pub itoa_injective : (m n : ℕ) → itoa m ≡ itoa n → m ≡ n
itoa_injective m n h = sym (number-itoa m) ∙ ap (number 0) h ∙ number-itoa n

itoa_407 : itoa 407 ≡ codes "407"
unfolding itoa
itoa_407 = refl

-- The bytes of digits.
abbrev pub IsDigit : ℕ → Type 0
IsDigit c = (b'0' ≤ c) × (c ≤ b'9')

digits-IsDigit : (f n : ℕ) (out : Bytes) → All IsDigit out → All IsDigit (digits f n out)
unfolding digits
digits-IsDigit zero n out h = h
digits-IsDigit (suc f) n out h = ground (arith, digits-IsDigit f (n / 10) ((b'0' + n % 10) ∷ out))

pub itoa-IsDigit : (n : ℕ) → All IsDigit (itoa n)
unfolding itoa
itoa-IsDigit n = digits-IsDigit (suc n) n [] tt
