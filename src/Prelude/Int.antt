-- ===== src/Prelude/Int.antt =====
-- `std::int64_t` as an integer over the native numbers, with its wrap-around. Signed overflow is
-- undefined in C++; the two's complement result is what the targets of the build compute.
use Prim.Native.Nat.{ℕ, suc, ◌+◌, ◌-◌, ◌*◌, ◌%◌, ◌^◌, ◌≤◌, ◌<◌}
use mathlib.Core.Path.{◌≡◌}
use mathlib.Core.Logic.{◌↔◌}
use mathlib.Core.Bool.{Bool, true}
use native.Mathlib.Omega.{arith}
use redis_plus.Prelude.Tests.{ltb, leb, ◌==◌, if◌then◌else◌}

-- `negsuc n` is -(n + 1).
pub data ℤ : Type 0 where
  pos : ℕ → ℤ
  negsuc : ℕ → ℤ

abbrev pub pos_part : ℤ → ℕ
pos_part (pos n) = n
pos_part (negsuc n) = 0

abbrev pub neg_part : ℤ → ℕ
neg_part (pos n) = 0
neg_part (negsuc n) = suc n

-- a - b, as an integer
abbrev pub sub_ℕ : ℕ → ℕ → ℤ
sub_ℕ a b = if leb b a then pos (a - b) else negsuc (b - a - 1)

abbrev pub neg : ℤ → ℤ
neg a = sub_ℕ (neg_part a) (pos_part a)

infix 50 ◌≤ℤ◌ ◌<ℤ◌
abbrev pub ◌≤ℤ◌ : ℤ → ℤ → Type 0
a ≤ℤ b = pos_part a + neg_part b ≤ pos_part b + neg_part a

abbrev pub ◌<ℤ◌ : ℤ → ℤ → Type 0
a <ℤ b = pos_part a + neg_part b < pos_part b + neg_part a

abbrev pub leb_ℤ : ℤ → ℤ → Bool
leb_ℤ a b = leb (pos_part a + neg_part b) (pos_part b + neg_part a)

abbrev pub ltb_ℤ : ℤ → ℤ → Bool
ltb_ℤ a b = ltb (pos_part a + neg_part b) (pos_part b + neg_part a)

abbrev pub eq_ℤ : ℤ → ℤ → Bool
eq_ℤ a b = pos_part a + neg_part b == pos_part b + neg_part a

pub eq_ℤ_iff : (a b : ℤ) → (eq_ℤ a b ≡ true) ↔ (a ≡ b)
eq_ℤ_iff a b = ground arith

abbrev pub two_64 : ℕ
two_64 = 2 ^ 64

abbrev pub max_i64 : ℕ
max_i64 = 2 ^ 63 - 1

-- the range of `std::int64_t`
abbrev pub InRange : ℤ → Type 0
InRange a = (pos_part a ≤ max_i64) × (neg_part a ≤ max_i64 + 1)

-- `static_cast<std::uint64_t>(a)`
unfoldable pub to_u64 : ℤ → ℕ
to_u64 (pos n) = n % two_64
to_u64 (negsuc n) = two_64 - 1 - n % two_64

-- `static_cast<std::int64_t>(n)`
unfoldable pub of_u64 : ℕ → ℤ
of_u64 n = let m = n % two_64 in if leb m max_i64 then pos m else negsuc (two_64 - 1 - m)

pub of_u64-to_u64 : (a : ℤ) → InRange a → of_u64 (to_u64 a) ≡ a
unfolding of_u64 to_u64
of_u64-to_u64 (pos n) h = ground arith
of_u64-to_u64 (negsuc n) h = ground arith

-- int64 arithmetic
infixl 65 ◌+ℤ◌ ◌-ℤ◌
unfoldable pub ◌+ℤ◌ : ℤ → ℤ → ℤ
a +ℤ b = of_u64 (to_u64 a + to_u64 b)

unfoldable pub ◌-ℤ◌ : ℤ → ℤ → ℤ
a -ℤ b = of_u64 (to_u64 a + (two_64 - to_u64 b))

-- `n *= 1000`
unfoldable pub times_1000 : ℤ → ℤ
times_1000 a = of_u64 (to_u64 a * 1000)

pub +ℤ_exact :
    (a b : ℤ)
    → InRange a
    → InRange b
    → (c : ℤ) → InRange c
    → pos_part c + neg_part a + neg_part b ≡ neg_part c + pos_part a + pos_part b
    → a +ℤ b ≡ c
unfolding ◌+ℤ◌ of_u64 to_u64
+ℤ_exact (pos a) (pos b) ha hb (pos c) hc h = ground arith
+ℤ_exact _ _ ha hb _ hc h = ground arith

-- Adding back a difference that was taken in range gives the first number.
pub +ℤ-sub_cancel : (a b : ℤ) → InRange a → a ≡ b +ℤ (a -ℤ b)
unfolding ◌+ℤ◌ ◌-ℤ◌ of_u64 to_u64
+ℤ-sub_cancel (pos a) (pos b) h = ground arith
+ℤ-sub_cancel _ _ h = ground arith
