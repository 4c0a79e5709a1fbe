-- ===== src/Prelude/Int.antt =====
-- Signed integers over the native numbers, and Go's int64 and uint64 with their wrap-around.
use Prim.Native.Nat.{ℕ, suc, ◌+◌, ◌-◌, ◌%◌, ◌<◌}
use mathlib.Core.Path.{◌≡◌}
use mathlib.Core.Bool.{Bool}
use native.Mathlib.Omega.{arith}
use mykeep_foundry.Prelude.Tests.{ltb, leb, if◌then◌else◌}

-- `negsuc n` is -(n + 1).
pub data ℤ : Type 0 where
  pos : ℕ → ℤ
  negsuc : ℕ → ℤ

abbrev pub pos_part : ℤ → ℕ
pos_part (pos n) = n
pos_part (negsuc n) = 0

abbrev pub neg_part : ℤ → ℕ
neg_part (pos n) = 0
neg_part (negsuc n) = suc n

-- a - b, as an integer.
abbrev pub sub_ℕ : ℕ → ℕ → ℤ
sub_ℕ a b = if leb b a then pos (a - b) else negsuc (b - a - 1)

infixl 65 ◌+ℤ◌ ◌-ℤ◌
unfoldable pub ◌+ℤ◌ : ℤ → ℤ → ℤ
a +ℤ b = sub_ℕ (pos_part a + pos_part b) (neg_part a + neg_part b)

unfoldable pub ◌-ℤ◌ : ℤ → ℤ → ℤ
a -ℤ b = sub_ℕ (pos_part a + neg_part b) (neg_part a + pos_part b)

abbrev pub ltb_ℤ : ℤ → ℤ → Bool
ltb_ℤ a b = ltb (pos_part a + neg_part b) (pos_part b + neg_part a)

-- 2 ^ 64 and 2 ^ 63.
abbrev pub u64_mod : ℕ
u64_mod = 18446744073709551616

abbrev pub i64_mod : ℕ
i64_mod = 9223372036854775808

-- `x` as a uint64.
unfoldable pub u64 : ℕ → ℕ
u64 n = n % u64_mod

bits : ℤ → ℕ
bits (pos n) = n % u64_mod
bits (negsuc n) = u64_mod - 1 - n % u64_mod

signed : ℕ → ℤ
signed b = if ltb b i64_mod then pos b else negsuc (u64_mod - 1 - b)

-- `z` as an int64: the low 64 bits, read in two's complement.
unfoldable pub int64 : ℤ → ℤ
unfolding bits signed
int64 z = signed (bits z)

pub int64-pos : (n : ℕ) → n < i64_mod → int64 (pos n) ≡ pos n
unfolding int64
int64-pos n h = ground arith

pub int64-negsuc : (n : ℕ) → n < i64_mod → int64 (negsuc n) ≡ negsuc n
unfolding int64
int64-negsuc n h = ground arith

pub u64-eq : (n : ℕ) → n < u64_mod → u64 n ≡ n
unfolding u64
u64-eq n h = ground arith
