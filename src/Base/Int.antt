-- ===== src/Base/Int.antt =====
-- Signed integers, for Go's `int` and `time.Duration`.
use Prim.Native.Nat.{ℕ, suc, ◌-◌, ◌*◌, ◌%◌}
use mathlib.Core.Bool.{Bool, true, false}
use hostseal.Base.Tests.{ltb, leb, if◌then◌else◌}

-- `negsuc n` is -(n + 1).
pub data ℤ : Type 0 where
  pos : ℕ → ℤ
  negsuc : ℕ → ℤ

abbrev pub ltb_ℤ : ℤ → ℤ → Bool
ltb_ℤ (pos a) (pos b) = ltb a b
ltb_ℤ (pos a) (negsuc b) = false
ltb_ℤ (negsuc a) (pos b) = true
ltb_ℤ (negsuc a) (negsuc b) = ltb b a

-- `abs` of a number that is not the least one.
abbrev pub abs : ℤ → ℕ
abs (pos a) = a
abs (negsuc a) = suc a

-- 2 ^ 63 and 2 ^ 64, the range of `int64` and of `uint64`.
abbrev pub int64_half : ℕ
int64_half = 9223372036854775808

abbrev pub int64_mod : ℕ
int64_mod = 18446744073709551616

-- The `int64` with these low bits.
unfoldable pub int64_of_bits : ℕ → ℤ
int64_of_bits n =
    let low = n % int64_mod in if ltb low int64_half then pos low else negsuc (int64_mod - 1 - low)

-- The product of an `int64` and a positive constant, wrapped round as the processor does.
unfoldable pub mul_int64 : ℤ → ℕ → ℤ
unfolding int64_of_bits
mul_int64 (pos a) k = int64_of_bits (a * k)
mul_int64 (negsuc a) k = int64_of_bits (int64_mod - suc a * k % int64_mod)

-- The difference of two instants, held to the range of `time.Duration` as `Time.Sub` does.
unfoldable pub sub_saturating : ℕ → ℕ → ℤ
sub_saturating t u =
    if leb u t
    then (if ltb (t - u) int64_half then pos (t - u) else pos (int64_half - 1))
    else if leb (u - t) int64_half
    then negsuc (u - t - 1)
    else negsuc (int64_half - 1)
