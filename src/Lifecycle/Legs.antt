-- ===== src/Lifecycle/Legs.antt =====
-- The capacity checks against their meaning: for each giver and item, the exact sum of the offered
-- quantities is within the cap.
use ymatch.Lifecycle.Sums.{
  count_leg-Sums, bump_by, count_leg, plus_given, Sums, Tracks, has, volume, given, IsLeg,
}
use mathlib.Core.Path.{fun_ext, subst}
use ymatch.Common.{
  ℕ, ◌+◌, ◌<◌, ◌≡◌, refl, ◌↔◌, inl, inr, true, false, ◌&&◌, List, [], ◌∷◌, arith, ◌==◌,
  if◌then◌else◌, Bool-cases, All,
}
use ymatch.Common.Int.{pos, ◌≤ℤ◌, ltb_ℤ}
use ymatch.Error.{AppError, Result, ◌>>=◌, >>=-eq_ok, ok, err}
use ymatch.Store.Inventory.{QtyMap, qty_of}
use ymatch.Store.Matches.{OfferItem}
use ymatch.Lifecycle.Guards.{
  Totals, sum_legs, within_caps, is_participant, validate_legs, receiver_wants,
  validate_giver_trade_capacity, giver_trades,
}

module _ (user1_id user2_id : ℕ) where
  sum_legs_step :
      (i : OfferItem) (is : List OfferItem) (ts ts' : Totals)
      → IsLeg user1_id user2_id i
      → sum_legs user1_id user2_id is (count_leg i ts) ≡ ok ts'
      → sum_legs user1_id user2_id (i ∷ is) ts ≡ ok ts'
  unfolding sum_legs
  sum_legs_step i is ts ts' (part, nonneg) e =
      let fine : ltb_ℤ i.quantity (pos 0) ≡ false = ground arith in rw (part, fine) e

  sum_legs-IsLeg :
      (items : List OfferItem) (ts ts' : Totals)
      → sum_legs user1_id user2_id items ts ≡ ok ts'
      → All (IsLeg user1_id user2_id) items
  unfolding sum_legs
  sum_legs-IsLeg [] ts ts' e = tt
  sum_legs-IsLeg (i ∷ is) ts ts' e =
      elim (Bool-cases (is_participant i.giver_user_id user1_id user2_id)) [
        | inr outsider ↦ absurd (ground arith)
        | inl part ↦ elim (Bool-cases (ltb_ℤ i.quantity (pos 0))) [
          | inl negative ↦ absurd (ground arith)
          | inr fine ↦ ((part, ground arith), sum_legs-IsLeg is _ ts' (rw (part, fine) at e))
        ]
      ]

  sum_legs-Sums :
      (items : List OfferItem) (f : ℕ → ℕ → ℕ) (ts : Totals)
      → All (IsLeg user1_id user2_id) items
      → ((g m : ℕ) → f g m + volume items < 2147483648)
      → Sums f ts
      → (ts' : Totals) × (sum_legs user1_id user2_id items ts ≡ ok ts')
        × Sums (plus_given f items) ts'
  unfolding sum_legs
  sum_legs-Sums [] f ts legs lim t =
      (ts, refl, subst (λ h. Sums h ts) (fun_ext λ g. fun_ext λ m. omega arith) t)
  sum_legs-Sums (i ∷ is) f ts legs lim t =
      let (ts', e, s) =
        sum_legs-Sums is (bump_by i f) (count_leg i ts) legs.1 (λ g m. ground (arith, lim g m))
          (count_leg-Sums i f ts legs.0.1 (ground (arith, lim i.giver_user_id i.merch_id)) t) in
      (
        ts',
        sum_legs_step i is ts ts' legs.0 e,
        subst (λ h. Sums h ts') (fun_ext λ g. fun_ext λ m. ground arith) s,
      )

entry_within :
    (caps : ℕ → QtyMap) (f : ℕ → ℕ → ℕ) (ts : Totals) (g m : ℕ)
    → Tracks f ts
    → within_caps caps ts ≡ true
    → has g m ts ≡ true
    → pos (f g m) ≤ℤ qty_of m (caps g)
unfolding within_caps has
entry_within caps f [] g m t w h = cc
entry_within caps f ((a, b, q) ∷ ts) g m (e, p, u, t) w h = elim (Bool-cases (g == a && m == b)) [
  | inl hit ↦
      let ga : g ≡ a = ground arith in let mb : m ≡ b = ground arith in rw (ga, mb) (ground arith)
  | inr miss ↦ entry_within caps f ts g m t (ground arith) (rw miss at h)
]

entries_within :
    (caps : ℕ → QtyMap) (f : ℕ → ℕ → ℕ) (ts : Totals)
    → Tracks f ts
    → ((g m : ℕ) → 0 < f g m → pos (f g m) ≤ℤ qty_of m (caps g))
    → within_caps caps ts ≡ true
unfolding within_caps
entries_within caps f [] t h = refl
entries_within caps f ((a, b, q) ∷ ts) (e, p, u, t) h =
    ground (arith, h a b, entries_within caps f ts t h)

-- Every entry is within its cap exactly when every sum is.
within_caps_iff :
    (caps : ℕ → QtyMap) (f : ℕ → ℕ → ℕ) (ts : Totals)
    → Sums f ts
    → (within_caps caps ts ≡ true) ↔ ((g m : ℕ) → 0 < f g m → pos (f g m) ≤ℤ qty_of m (caps g))
within_caps_iff caps f ts (t, c) =
    (λ w g m p. entry_within caps f ts g m t w (c g m p), λ h. entries_within caps f ts t h)

-- No exact sum passes its cap.
abbrev pub WithinCaps : (ℕ → QtyMap) → List OfferItem → Type 0
WithinCaps caps items = (g m : ℕ) → 0 < given g m items → pos (given g m items) ≤ℤ qty_of m (caps g)

module _ (items : List OfferItem) (user1_id user2_id : ℕ) where
  sum_legs-Sums_empty :
      All (IsLeg user1_id user2_id) items
      → volume items < 2147483648
      → (ts : Totals) × (sum_legs user1_id user2_id items [] ≡ ok ts)
        × Sums (λ g m. given g m items) ts
  unfolding has
  sum_legs-Sums_empty legs lim =
      let (ts, e, s) =
        sum_legs-Sums user1_id user2_id items (λ _ _. 0) [] legs (λ g m. omega arith)
          (tt, λ g m h. absurd (omega arith)) in
      (ts, e, subst (λ h. Sums h ts) (fun_ext λ g. fun_ext λ m. omega arith) s)

  abbrev check_caps : (ℕ → QtyMap) → AppError → Result (Unit {0})
  check_caps caps fault = sum_legs user1_id user2_id items [] >>= λ totals.
      if within_caps caps totals then ok tt else err fault

  -- The two checks share this; they differ in the caps and in the fault.
  check_caps_iff :
      (caps : ℕ → QtyMap) (fault : AppError)
      → volume items < 2147483648
      → (check_caps caps fault ≡ ok tt)
        ↔ (All (IsLeg user1_id user2_id) items × WithinCaps caps items)
  check_caps_iff caps fault lim = (
    λ e.
        let (ts, summed, e1) = >>=-eq_ok (sum_legs user1_id user2_id items []) _ e in
        let legs = sum_legs-IsLeg user1_id user2_id items [] ts summed in
        let (ts', summed', s) = sum_legs-Sums_empty legs lim in
        let same : ts' ≡ ts = ground arith in
        (legs, (within_caps_iff caps _ ts (rw same at s)).0 (ground arith)),
    λ good.
        let (ts, summed, s) = sum_legs-Sums_empty good.0 lim in
        rw summed (rw ((within_caps_iff caps _ ts s).1 good.1) refl),
  )

-- `validate_legs` passes a proposal exactly when each leg is well formed and no exact sum of an
-- item that a giver offers passes what the other side wants, as long as the sums fit an i32.
pub validate_legs_iff :
    (items : List OfferItem) (user1_id user2_id : ℕ) (wants1 wants2 : QtyMap)
    → volume items < 2147483648
    → (validate_legs items user1_id user2_id wants1 wants2 ≡ ok tt) ↔ (
        All (IsLeg user1_id user2_id) items
        × WithinCaps (receiver_wants user1_id user2_id wants1 wants2) items)
unfolding validate_legs
validate_legs_iff items user1_id user2_id wants1 wants2 lim =
    check_caps_iff items user1_id user2_id (receiver_wants user1_id user2_id wants1 wants2) _ lim

-- `validate_giver_trade_capacity` passes a proposal exactly when each leg is well formed and no exact
-- sum of an item that a giver offers passes what that giver trades, as long as the sums fit an i32.
pub validate_giver_trade_capacity_iff :
    (items : List OfferItem) (user1_id user2_id : ℕ) (trade1 trade2 : QtyMap)
    → volume items < 2147483648
    → (validate_giver_trade_capacity items user1_id user2_id trade1 trade2 ≡ ok tt) ↔ (
        All (IsLeg user1_id user2_id) items
        × WithinCaps (giver_trades user1_id trade1 trade2) items)
unfolding validate_giver_trade_capacity
validate_giver_trade_capacity_iff items user1_id user2_id trade1 trade2 lim =
    check_caps_iff items user1_id user2_id (giver_trades user1_id trade1 trade2) _ lim
