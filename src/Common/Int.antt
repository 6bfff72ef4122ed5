-- ===== src/Common/Int.antt =====
-- Signed integers over the native numbers, and the i32 arithmetic of the release profile: a result
-- outside the range wraps to the two's complement value.
use Prim.Native.Nat.{ℕ, suc, ◌+◌, ◌-◌, ◌%◌, ◌≤◌, ◌<◌}
use mathlib.Core.Path.{◌≡◌, refl}
use mathlib.Core.Bool.{Bool}
use native.Mathlib.Omega.{arith}
use ymatch.Common.Tests.{ltb, leb, ◌==◌, if◌then◌else◌}

-- `negsuc n` is -(n + 1).
pub data ℤ : Type 0 where
  pos : ℕ → ℤ
  negsuc : ℕ → ℤ

abbrev pub pos_part : ℤ → ℕ
pos_part (pos n) = n
pos_part (negsuc n) = 0

abbrev pub neg_part : ℤ → ℕ
neg_part (pos n) = 0
neg_part (negsuc n) = suc n

-- a - b, as an integer.
abbrev pub sub_ℕ : ℕ → ℕ → ℤ
sub_ℕ a b = if leb b a then pos (a - b) else negsuc (b - a - 1)

infixl 65 ◌+ℤ◌ ◌-ℤ◌
infix 50 ◌≤ℤ◌ ◌<ℤ◌
unfoldable pub ◌+ℤ◌ : ℤ → ℤ → ℤ
a +ℤ b = sub_ℕ (pos_part a + pos_part b) (neg_part a + neg_part b)

unfoldable pub ◌-ℤ◌ : ℤ → ℤ → ℤ
a -ℤ b = sub_ℕ (pos_part a + neg_part b) (neg_part a + pos_part b)

abbrev pub ◌≤ℤ◌ : ℤ → ℤ → Type 0
a ≤ℤ b = pos_part a + neg_part b ≤ pos_part b + neg_part a

abbrev pub ◌<ℤ◌ : ℤ → ℤ → Type 0
a <ℤ b = pos_part a + neg_part b < pos_part b + neg_part a

abbrev pub leb_ℤ : ℤ → ℤ → Bool
leb_ℤ a b = leb (pos_part a + neg_part b) (pos_part b + neg_part a)

abbrev pub ltb_ℤ : ℤ → ℤ → Bool
ltb_ℤ a b = ltb (pos_part a + neg_part b) (pos_part b + neg_part a)

abbrev pub eqb_ℤ : ℤ → ℤ → Bool
eqb_ℤ a b = pos_part a + neg_part b == pos_part b + neg_part a

-- `LEAST` and `GREATEST` of SQL.
abbrev pub min_ℤ : ℤ → ℤ → ℤ
min_ℤ a b = if leb_ℤ a b then a else b

abbrev pub max_ℤ : ℤ → ℤ → ℤ
max_ℤ a b = if leb_ℤ a b then b else a

pub +ℤ_parts :
    (a b : ℤ)
    → pos_part (a +ℤ b) + neg_part a + neg_part b ≡ neg_part (a +ℤ b) + pos_part a + pos_part b
unfolding ◌+ℤ◌
+ℤ_parts a b = ground arith

pub -ℤ_parts :
    (a b : ℤ)
    → pos_part (a -ℤ b) + neg_part a + pos_part b ≡ neg_part (a -ℤ b) + pos_part a + neg_part b
unfolding ◌-ℤ◌
-ℤ_parts a b = ground arith

pub eq_of_parts : (a b : ℤ) → pos_part a + neg_part b ≡ pos_part b + neg_part a → a ≡ b
eq_of_parts a b h = ground arith

pub ruleset int_laws = (arith, +ℤ_parts, -ℤ_parts, eq_of_parts)

-- The values of an i32.
abbrev pub InI32 : ℤ → Type 0
InI32 a = (pos_part a < 2147483648) × (neg_part a ≤ 2147483648)

abbrev pub in_i32 : ℤ → Bool
in_i32 a = if ltb (pos_part a) 2147483648 then leb (neg_part a) 2147483648 else Bool.false

-- `x as i32` of a wider value, and the result of an i32 operation that overflows.
unfoldable pub to_i32 : ℤ → ℤ
to_i32 a =
    sub_ℕ ((pos_part a + (4294967296 - neg_part a % 4294967296) + 2147483648) % 4294967296)
      2147483648

pub to_i32-eq : (a : ℤ) → InI32 a → to_i32 a ≡ a
unfolding to_i32
to_i32-eq (pos n) h = ground arith
to_i32-eq (negsuc n) h = ground arith

unfoldable pub add_i32 : ℤ → ℤ → ℤ
add_i32 a b = to_i32 (a +ℤ b)

-- `-a`
unfoldable pub neg_i32 : ℤ → ℤ
neg_i32 a = to_i32 (pos 0 -ℤ a)

pub add_i32-eq : (a b : ℤ) → InI32 (a +ℤ b) → add_i32 a b ≡ a +ℤ b
unfolding add_i32
add_i32-eq a b h = to_i32-eq (a +ℤ b) h

pub neg_i32-eq : (a : ℤ) → InI32 (pos 0 -ℤ a) → neg_i32 a ≡ pos 0 -ℤ a
unfolding neg_i32
neg_i32-eq a h = to_i32-eq (pos 0 -ℤ a) h

wraps : add_i32 (pos 2147483647) (pos 1) ≡ negsuc 2147483647
unfolding add_i32 to_i32 ◌+ℤ◌
wraps = refl
