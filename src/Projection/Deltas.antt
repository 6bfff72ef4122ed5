-- ===== src/Projection/Deltas.antt =====
-- The projected deltas against the ones of `apply_inventory_delta`, as they are before a row is clamped at 0.
use ymatch.Projection.Wrap.{+ℤ_assoc, to_i32-add, add_i32-to_i32}
use ymatch.Common.{
  Option, total, delete, ◌∙◌, str_eq_self, str_eq_iff, ==_iff, ℕ, ◌≡◌, refl, ap, ◌↔◌, inl, inr,
  true, false, ◌&&◌, List, [], ◌∷◌, arith, ◌==◌, if◌then◌else◌, Bool-cases, fetch,
}
use ymatch.Common.Int.{
  leb_ℤ, +ℤ_parts, eq_of_parts, ◌+ℤ◌, neg_i32, to_i32, ℤ, pos, ◌-ℤ◌, ltb_ℤ, add_i32,
}
use ymatch.Store.{Holding, have, want, trade, holding_eq}
use ymatch.Lifecycle.Guards.{apply_inventory_delta}
use ymatch.Projection.{
  add_leg, add_deltas, projection_leg_deltas, add_legs, is_excluded, projection_leg_deltas,
  add_deltas, ProjectionLeg, DeltaEntry, at_delta, add_delta, delta_at,
}

pub holding_eq_iff : (a b : Holding) → (holding_eq a b ≡ true) ↔ (a ≡ b)
holding_eq_iff have b = ground arith
holding_eq_iff want b = ground arith
holding_eq_iff trade b = ground arith
holding_eq_iff (Holding.other s) have = ground arith
holding_eq_iff (Holding.other s) want = ground arith
holding_eq_iff (Holding.other s) trade = ground arith
holding_eq_iff (Holding.other s) (Holding.other t) = (
  λ h. ap Holding.other ((str_eq_iff s t).0 h),
  λ e. let same : s ≡ t = ground arith in rw same (str_eq_self t),
)

-- What (delta_trade, delta_have, delta_want) change at a holding.
abbrev settled : ℤ × ℤ × ℤ → Holding → ℤ
settled (dt, dh, dw) have = dh
settled (dt, dh, dw) want = dw
settled (dt, dh, dw) trade = pos 0 -ℤ dt
settled (dt, dh, dw) (Holding.other s) = pos 0

-- The change that `apply_inventory_delta` names for one leg at a key of a user's inventory, without a skip. What
-- `apply_inventory` does with it, which keeps a quantity from falling below 0 and leaves a missing HAVE or WANT
-- row out, is not in it.
abbrev pub raw_change : ℕ → ℕ → Holding → ProjectionLeg → ℤ
raw_change user_id merch_id status leg =
    if leg.merch_id == merch_id && ltb_ℤ (pos 0) leg.quantity
    then settled (apply_inventory_delta leg.giver_user_id user_id leg.quantity false) status
    else pos 0

pub at_delta_of :
    (m m' : ℕ) (s s' : Holding) (e : DeltaEntry)
    → at_delta m' s' e ≡ true
    → at_delta m s e ≡ (m' == m && holding_eq s' s)
at_delta_of m m' s s' e h =
    let m_eq : e.merch_id ≡ m' = (==_iff _ _).0 (ground arith) in
    let s_eq : e.status ≡ s' = (holding_eq_iff _ _).0 (ground arith) in rw (m_eq, s_eq) refl

pub differs_of :
    (m m' : ℕ) (s s' : Holding) (e : DeltaEntry)
    → at_delta m' s' e ≡ false
    → at_delta m s e ≡ true
    → (m' == m && holding_eq s' s) ≡ false
differs_of m m' s s' e miss here = elim (Bool-cases (m' == m && holding_eq s' s)) [
  | inr differs ↦ differs
  | inl same ↦
      let m_eq : m' ≡ m = (==_iff _ _).0 (ground arith) in
      let s_eq : s' ≡ s = (holding_eq_iff _ _).0 (ground arith) in
      absurd (let no = rw (m_eq, s_eq) at miss in cc)
]

delta_at-add_delta :
    (m m' : ℕ) (s s' : Holding) (d : ℤ) (es : List DeltaEntry)
    → delta_at m s (add_delta m' s' d es)
      ≡ (if m' == m && holding_eq s' s then add_i32 (delta_at m s es) d else delta_at m s es)
unfolding delta_at add_delta fetch
delta_at-add_delta m m' s s' d [] = elim (Bool-cases (m' == m && holding_eq s' s)) [
  | inl same ↦ rw same refl
  | inr differs ↦ rw differs refl
]
delta_at-add_delta m m' s s' d (e ∷ es) = elim (Bool-cases (at_delta m' s' e)) [
  | inl hit ↦ rw hit elim (Bool-cases (m' == m && holding_eq s' s)) [
    | inl same ↦ rw (at_delta_of m m' s s' e hit, same) refl
    | inr differs ↦ rw (at_delta_of m m' s s' e hit, differs) refl
  ]
  | inr miss ↦ rw miss elim (Bool-cases (at_delta m s e)) [
    | inl here ↦ rw here (rw (differs_of m m' s s' e miss here) refl)
    | inr later ↦ rw later (delta_at-add_delta m m' s s' d es)
  ]
]

pub +ℤ_zero : (x : ℤ) → x +ℤ pos 0 ≡ x
+ℤ_zero x = eq_of_parts _ _ (omega (arith, +ℤ_parts x (pos 0)))

pub zero_+ℤ : (x : ℤ) → pos 0 +ℤ x ≡ x
zero_+ℤ x = eq_of_parts _ _ (omega (arith, +ℤ_parts (pos 0) x))

-- Two entries of one leg, at a key that they may hit.
two_deltas :
    (m m' : ℕ) (s a b : Holding) (d d' : ℤ) (out : List DeltaEntry)
    → delta_at m s (add_delta m' b d' (add_delta m' a d out)) ≡ (
        if m' == m && holding_eq b s
        then add_i32
            (if m' == m && holding_eq a s then add_i32 (delta_at m s out) d else delta_at m s out)
            d'
        else if m' == m && holding_eq a s
        then add_i32 (delta_at m s out) d
        else delta_at m s out)
two_deltas m m' s a b d d' out =
    rw (delta_at-add_delta m m' s b d' (add_delta m' a d out), delta_at-add_delta m m' s a d out)
      refl

zero_sub_zero : pos 0 -ℤ pos 0 ≡ pos 0
unfolding ◌-ℤ◌
zero_sub_zero = refl

wrapped_sub : (x q : ℤ) → add_i32 (to_i32 x) (neg_i32 q) ≡ to_i32 (x +ℤ (pos 0 -ℤ q))
unfolding neg_i32
wrapped_sub x q = add_i32-to_i32 x (to_i32 (pos 0 -ℤ q)) ∙ to_i32-add x (pos 0 -ℤ q)

module _ (m m' : ℕ) (x q : ℤ) (out : List DeltaEntry) where
  elsewhere : (s : Holding) → delta_at m s out ≡ to_i32 x → delta_at m s out ≡ to_i32 (x +ℤ pos 0)
  elsewhere s e = rw (+ℤ_zero x) e

  giver_deltas :
      (s : Holding)
      → delta_at m s out ≡ to_i32 x
      → delta_at m s (add_delta m' trade (neg_i32 q) (add_delta m' have (neg_i32 q) out))
        ≡ to_i32 (x +ℤ (if m' == m then settled (q, neg_i32 q, pos 0) s else pos 0))
  giver_deltas s e =
      rw (two_deltas m m' s have trade (neg_i32 q) (neg_i32 q) out) (elim (Bool-cases (m' == m)) [
        | inr apart ↦ rw apart (elsewhere s e)
        | inl same ↦ rw same (at s e)
      ])
    where
      at :
          (s : Holding)
          → delta_at m s out ≡ to_i32 x
          → (if holding_eq trade s
              then add_i32
                  (if holding_eq have s
                    then add_i32 (delta_at m s out) (neg_i32 q)
                    else delta_at m s out)
                  (neg_i32 q)
              else if holding_eq have s
              then add_i32 (delta_at m s out) (neg_i32 q)
              else delta_at m s out)
            ≡ to_i32 (x +ℤ settled (q, neg_i32 q, pos 0) s)
      at have e = rw e (add_i32-to_i32 x (neg_i32 q))
      at want e = elsewhere want e
      at trade e = rw e (wrapped_sub x q)
      at (Holding.other t) e = elsewhere (Holding.other t) e

  receiver_deltas :
      (s : Holding)
      → delta_at m s out ≡ to_i32 x
      → delta_at m s (add_delta m' want (neg_i32 q) (add_delta m' have q out))
        ≡ to_i32 (x +ℤ (if m' == m then settled (pos 0, q, neg_i32 q) s else pos 0))
  receiver_deltas s e =
      rw (two_deltas m m' s have want q (neg_i32 q) out) (elim (Bool-cases (m' == m)) [
        | inr apart ↦ rw apart (elsewhere s e)
        | inl same ↦ rw same (at s e)
      ])
    where
      at :
          (s : Holding)
          → delta_at m s out ≡ to_i32 x
          → (if holding_eq want s
              then add_i32
                  (if holding_eq have s then add_i32 (delta_at m s out) q else delta_at m s out)
                  (neg_i32 q)
              else if holding_eq have s
              then add_i32 (delta_at m s out) q
              else delta_at m s out)
            ≡ to_i32 (x +ℤ settled (pos 0, q, neg_i32 q) s)
      at have e = rw e (add_i32-to_i32 x q)
      at want e = rw e (add_i32-to_i32 x (neg_i32 q))
      at trade e = rw zero_sub_zero (elsewhere trade e)
      at (Holding.other t) e = elsewhere (Holding.other t) e

add_leg_step :
    (user_id m : ℕ) (s : Holding) (leg : ProjectionLeg) (x : ℤ) (out : List DeltaEntry)
    → delta_at m s out ≡ to_i32 x
    → delta_at m s (add_leg user_id leg out) ≡ to_i32 (x +ℤ raw_change user_id m s leg)
unfolding add_leg add_deltas projection_leg_deltas apply_inventory_delta
add_leg_step user_id m s leg x out e = elim (Bool-cases (leb_ℤ leg.quantity (pos 0))) [
  | inl nothing ↦
      let test : (leg.merch_id == m && ltb_ℤ (pos 0) leg.quantity) ≡ false =
        ground (arith, nothing) in
      rw (nothing, test) (elsewhere m leg.merch_id x leg.quantity out s e)
  | inr some_qty ↦
      let test : (leg.merch_id == m && ltb_ℤ (pos 0) leg.quantity) ≡ (leg.merch_id == m) =
        ground (arith, some_qty) in
      elim (Bool-cases (leg.giver_user_id == user_id)) [
        | inl gives ↦
            rw (some_qty, test, gives) (giver_deltas m leg.merch_id x leg.quantity out s e)
        | inr takes ↦
            rw (some_qty, test, takes) (receiver_deltas m leg.merch_id x leg.quantity out s e)
      ]
]

pub add_legs_step :
    (user_id m : ℕ) (s : Holding) (exclude : Option ℕ) (legs : List ProjectionLeg) (x : ℤ)
    (out : List DeltaEntry)
    → delta_at m s out ≡ to_i32 x
    → delta_at m s (add_legs user_id exclude legs out)
      ≡ to_i32 (x +ℤ total (raw_change user_id m s) (delete (is_excluded exclude) legs))
unfolding add_legs delete total
add_legs_step user_id m s exclude [] x out e = rw (+ℤ_zero x) e
add_legs_step user_id m s exclude (leg ∷ legs) x out e =
    elim (Bool-cases (is_excluded exclude leg)) [
      | inl dropped ↦ rw dropped (add_legs_step user_id m s exclude legs x out e)
      | inr kept ↦ rw kept (
          add_legs_step user_id m s exclude legs (x +ℤ raw_change user_id m s leg)
            (add_leg user_id leg out) (add_leg_step user_id m s leg x out e)
          ∙ ap to_i32 (+ℤ_assoc x (raw_change user_id m s leg) _))
    ]
