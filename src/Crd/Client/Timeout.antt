-- ===== src/Crd/Client/Timeout.antt =====
-- The timeout that the client of the CRD sets, in nanoseconds.
use cnf_nsm.Common.{ℕ, ◌+◌, ◌*◌, ◌≡◌, ◌≤◌, ◌<◌, some, arith, ltb}
use cnf_nsm.Common.Int64.{ℤ, pos, negsuc, mul_int64, to_bits, of_bits, is_negative}
use cnf_nsm.Crd.Client.{ListOptions, list_timeout}

-- The nanoseconds of an integer of seconds, with no bound.
unfoldable pub nanoseconds : ℤ → ℤ
nanoseconds (pos n) = pos (n * 1000000000)
nanoseconds (negsuc n) = negsuc (n * 1000000000 + 999999999)

-- An absolute value of at most 9223372036 seconds.
abbrev pub IsShort : ℤ → Type 0
IsShort (pos n) = n ≤ 9223372036
IsShort (negsuc n) = n < 9223372036

mul_int64-nanoseconds : (z : ℤ) → IsShort z → mul_int64 z (pos 1000000000) ≡ nanoseconds z
unfolding mul_int64 to_bits of_bits nanoseconds
mul_int64-nanoseconds (pos n) h = ground arith
mul_int64-nanoseconds (negsuc n) h = ground arith

-- The timeout of a list, a watch or the deletion of a collection is exact if its seconds are at most
-- 9223372036 either way: the product of the `int64` does not wrap around.
pub list_timeout_exact :
    (opts : ListOptions) (seconds : ℤ)
    → opts.timeout_seconds ≡ some seconds
    → IsShort seconds
    → list_timeout opts ≡ nanoseconds seconds
unfolding list_timeout
list_timeout_exact opts seconds set short = rw set (mul_int64-nanoseconds seconds short)

-- From 9223372037 seconds on, up to twice as many, the timeout comes out negative.
pub list_timeout_wraps :
    (opts : ListOptions) (n : ℕ)
    → opts.timeout_seconds ≡ some (pos n)
    → n ≤ 18446744073
    → is_negative (list_timeout opts) ≡ ltb 9223372036 n
unfolding list_timeout mul_int64 to_bits of_bits
list_timeout_wraps opts n set bound = ground arith
