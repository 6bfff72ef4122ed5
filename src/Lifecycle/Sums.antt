-- ===== src/Lifecycle/Sums.antt =====
-- The totals of the capacity checks: each entry is the exact sum of its giver and item, as long as the
-- sums fit an i32.
use mathlib.Core.Path.{fun_ext, subst}
use ymatch.Common.{
  ℕ, ◌+◌, ◌<◌, ◌≡◌, refl, inl, inr, Bool, true, false, ◌&&◌, ◌||◌, List, [], ◌∷◌, arith, ◌==◌,
  if◌then◌else◌, Bool-cases,
}
use ymatch.Common.Int.{ℤ, pos, pos_part, ◌+ℤ◌, ◌≤ℤ◌, ltb_ℤ, add_i32, to_i32}
use ymatch.Store.Matches.{OfferItem}
use ymatch.Lifecycle.Guards.{Totals, add_total, is_participant}

abbrev pub amount : OfferItem → ℕ
amount i = pos_part i.quantity

-- The exact sum that a giver offers of an item.
abbrev pub given : ℕ → ℕ → List OfferItem → ℕ
given g m [] = 0
given g m (i ∷ is) =
    (if g == i.giver_user_id && m == i.merch_id then amount i else 0) + given g m is

-- The sum of all quantities, a bound on each of these sums.
abbrev pub volume : List OfferItem → ℕ
volume [] = 0
volume (i ∷ is) = amount i + volume is

abbrev pub IsLeg : ℕ → ℕ → OfferItem → Type 0
IsLeg user1_id user2_id i =
    (is_participant i.giver_user_id user1_id user2_id ≡ true) × (pos 0 ≤ℤ i.quantity)

unfoldable pub has : ℕ → ℕ → Totals → Bool
has g m [] = false
has g m ((a, b, q) ∷ ts) = (g == a && m == b) || has g m ts

-- The totals are the values of `f`, one entry to a key.
abbrev pub Tracks : (ℕ → ℕ → ℕ) → Totals → Type 0
Tracks f [] = Unit {0}
Tracks f ((g, m, q) ∷ ts) = (q ≡ pos (f g m)) × (0 < f g m) × (has g m ts ≡ false) × Tracks f ts

abbrev Complete : (ℕ → ℕ → ℕ) → Totals → Type 0
Complete f ts = (g m : ℕ) → 0 < f g m → has g m ts ≡ true

abbrev bump : ℕ → ℕ → ℕ → (ℕ → ℕ → ℕ) → ℕ → ℕ → ℕ
bump g m n f a b = if a == g && b == m then f a b + n else f a b

has-add_total :
    (a b g m n : ℕ) (ts : Totals)
    → has a b (add_total g m (pos n) ts) ≡ (has a b ts || (a == g && b == m))
unfolding has add_total
has-add_total a b g m n [] = ground arith
has-add_total a b g m n ((c, d, q) ∷ ts) = ground (arith, has-add_total a b g m n ts)

-- A change at a key that is not there changes no entry.
Tracks-bump_other :
    (g m n : ℕ) (f : ℕ → ℕ → ℕ) (ts : Totals)
    → has g m ts ≡ false
    → Tracks f ts
    → Tracks (bump g m n f) ts
unfolding has
Tracks-bump_other g m n f [] h t = tt
Tracks-bump_other g m n f ((a, b, q) ∷ ts) h (e, p, u, t) =
    (ground arith, ground arith, u, Tracks-bump_other g m n f ts (ground arith) t)

pub add_exact : (a n : ℕ) → a + n < 2147483648 → add_i32 (pos a) (pos n) ≡ pos (a + n)
unfolding add_i32 to_i32 ◌+ℤ◌
add_exact a n h = ground arith

Tracks-add_total :
    (g m n : ℕ) (f : ℕ → ℕ → ℕ) (ts : Totals)
    → 0 < n
    → f g m + n < 2147483648
    → (has g m ts ≡ false → f g m ≡ 0)
    → Tracks f ts
    → Tracks (bump g m n f) (add_total g m (pos n) ts)
unfolding has add_total
Tracks-add_total g m n f [] pn lim fresh t =
    (ground (arith, add_exact 0 n, fresh refl), ground (arith, fresh refl), refl, tt)
Tracks-add_total g m n f ((a, b, q) ∷ ts) pn lim fresh (e, p, u, t) =
    elim (Bool-cases (a == g && b == m)) [
      | inl hit ↦
          let ag : a ≡ g = ground arith in
          let bm : b ≡ m = ground arith in
          rw hit (
            ground (arith, add_exact (f a b) n),
            ground arith,
            u,
            Tracks-bump_other g m n f ts (rw (← ag, ← bm) u) t,
          )
      | inr miss ↦ rw miss (
        ground arith,
        ground arith,
        rw (has-add_total a b g m n ts, u) miss,
        Tracks-add_total g m n f ts pn lim (λ h. fresh (ground arith)) t,
      )
    ]

Complete-add_total :
    (g m n : ℕ) (f : ℕ → ℕ → ℕ) (ts : Totals)
    → Complete f ts
    → Complete (bump g m n f) (add_total g m (pos n) ts)
Complete-add_total g m n f ts c a b h = rw (has-add_total a b g m n ts) (ground (arith, c a b))

-- The totals hold exactly the positive values of `f`.
abbrev pub Sums : (ℕ → ℕ → ℕ) → Totals → Type 0
Sums f ts = Tracks f ts × Complete f ts

-- What the totals are after the loop: sums of the quantities, unless a sum leaves the range.
abbrev pub plus_given : (ℕ → ℕ → ℕ) → List OfferItem → ℕ → ℕ → ℕ
plus_given f items g m = f g m + given g m items

-- One round of the loop.
abbrev pub count_leg : OfferItem → Totals → Totals
count_leg i ts =
    if ltb_ℤ (pos 0) i.quantity then add_total i.giver_user_id i.merch_id i.quantity ts else ts

abbrev pub bump_by : OfferItem → (ℕ → ℕ → ℕ) → ℕ → ℕ → ℕ
bump_by i = bump i.giver_user_id i.merch_id (amount i)

as_pos : (q : ℤ) → pos 0 ≤ℤ q → q ≡ pos (pos_part q)
as_pos q h = ground arith

Complete-fresh :
    (f : ℕ → ℕ → ℕ) (ts : Totals) (g m : ℕ) → Complete f ts → has g m ts ≡ false → f g m ≡ 0
Complete-fresh f ts g m c h = ground (arith, c g m)

pub count_leg-Sums :
    (i : OfferItem) (f : ℕ → ℕ → ℕ) (ts : Totals)
    → pos 0 ≤ℤ i.quantity
    → f i.giver_user_id i.merch_id + amount i < 2147483648
    → Sums f ts
    → Sums (bump_by i f) (count_leg i ts)
count_leg-Sums i f ts nonneg lim (t, c) = elim (Bool-cases (ltb_ℤ (pos 0) i.quantity)) [
  | inl positive ↦
      rw (positive, as_pos i.quantity nonneg)
        (
          Tracks-add_total i.giver_user_id i.merch_id (amount i) f ts (ground arith) lim
              (Complete-fresh f ts i.giver_user_id i.merch_id c) t,
          Complete-add_total i.giver_user_id i.merch_id (amount i) f ts c,
        )
  | inr zero_leg ↦
      rw zero_leg (subst (λ h. Sums h ts) (fun_ext λ g. fun_ext λ m. ground arith) (t, c))
]
