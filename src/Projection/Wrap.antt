-- ===== src/Projection/Wrap.antt =====
-- Sums that wrap at 32 bits: the order of the wrap-arounds does not show in the last value.
use Prim.Native.Nat.{◌*◌, ◌%◌, ◌/◌}
use ymatch.Common.{ℕ, ◌+◌, ◌-◌, ◌≡◌, ap, arith}
use ymatch.Common.Int.{
  ℤ, pos, pos_part, neg_part, ◌+ℤ◌, to_i32, to_i32-eq, sub_ℕ, add_i32, +ℤ_parts, eq_of_parts,
}

pub +ℤ_assoc : (a b c : ℤ) → (a +ℤ b) +ℤ c ≡ a +ℤ (b +ℤ c)
+ℤ_assoc a b c =
    eq_of_parts _ _
      (omega (arith, +ℤ_parts a b, +ℤ_parts b c, +ℤ_parts (a +ℤ b) c, +ℤ_parts a (b +ℤ c)))

residue-congr :
    (p n p' n' k l : ℕ)
    → p + n' + 4294967296 * k ≡ p' + n + 4294967296 * l
    → (p + (4294967296 - n % 4294967296) + 2147483648) % 4294967296
      ≡ (p' + (4294967296 - n' % 4294967296) + 2147483648) % 4294967296
residue-congr p n p' n' k l h = omega arith

pub to_i32-congr :
    (a b : ℤ) (k l : ℕ)
    → pos_part a + neg_part b + 4294967296 * k ≡ pos_part b + neg_part a + 4294967296 * l
    → to_i32 a ≡ to_i32 b
unfolding to_i32
to_i32-congr a b k l h =
    ap (λ r. sub_ℕ r 2147483648)
      (residue-congr (pos_part a) (neg_part a) (pos_part b) (neg_part b) k l h)

sub_ℕ_parts : (a b : ℕ) → pos_part (sub_ℕ a b) + b ≡ neg_part (sub_ℕ a b) + a
sub_ℕ_parts a b = ground arith

-- A wrapped value differs from the exact one by multiples of 2 ^ 32.
to_i32_parts :
    (a : ℤ)
    → (k : ℕ) × (l : ℕ) × (pos_part (to_i32 a) + neg_part a + 4294967296 * k
        ≡ pos_part a + neg_part (to_i32 a) + 4294967296 * l)
unfolding to_i32
to_i32_parts a =
    let n = neg_part a in
    let x = pos_part a + (4294967296 - n % 4294967296) + 2147483648 in
    (x / 4294967296, 1 + n / 4294967296, omega (arith, sub_ℕ_parts (x % 4294967296) 2147483648))

-- Adding to a wrapped value, and wrapping at the end only, give the same.
pub add_i32-to_i32 : (a b : ℤ) → add_i32 (to_i32 a) b ≡ to_i32 (a +ℤ b)
unfolding add_i32
add_i32-to_i32 a b =
    let (k, l, e) = to_i32_parts a in
    to_i32-congr (to_i32 a +ℤ b) (a +ℤ b) k l
      (omega (arith, e, +ℤ_parts (to_i32 a) b, +ℤ_parts a b))

pub to_i32-add : (a b : ℤ) → to_i32 (a +ℤ to_i32 b) ≡ to_i32 (a +ℤ b)
to_i32-add a b =
    let (k, l, e) = to_i32_parts b in
    to_i32-congr (a +ℤ to_i32 b) (a +ℤ b) k l
      (omega (arith, e, +ℤ_parts a (to_i32 b), +ℤ_parts a b))

pub to_i32-zero : to_i32 (pos 0) ≡ pos 0
to_i32-zero = to_i32-eq (pos 0) (omega arith, omega arith)
