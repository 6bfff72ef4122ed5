-- ===== src/Projection/Keys.antt =====
-- One entry for each key: a zero entry can be dropped without showing another one.
use ymatch.Common.Rows.{exists_row-false}
use ymatch.Common.{
  ==_self, ==_iff, ℕ, ◌≡◌, refl, sym, ap, ◌∙◌, inl, inr, Bool, true, false, ◌&&◌, ◌||◌, Option,
  List, [], ◌∷◌, arith, ◌==◌, Bool-cases, fetch, exists_row, delete,
}
use ymatch.Common.Int.{ℤ, pos, eqb_ℤ}
use ymatch.Store.{Holding, holding_eq}
use ymatch.Projection.{
  DeltaEntry, at_delta, add_delta, add_deltas, add_leg, add_legs, projection_leg_deltas, delta_at,
  delta_or_zero, is_zero, is_excluded, ProjectionLeg,
}
use ymatch.Projection.Deltas.{holding_eq_iff, at_delta_of}

abbrev pub UniqueKeys : List DeltaEntry → Type 0
UniqueKeys [] = Unit
UniqueKeys (e ∷ es) = (exists_row (at_delta e.merch_id e.status) es ≡ false) × UniqueKeys es

or_twice : (a b : Bool) → (a || b) ≡ (a || (a || b))
or_twice a b = ground arith

or_swap : (a b c : Bool) → (a || (b || c)) ≡ (b || (a || c))
or_swap a b c = ground arith

exists_row-add_delta :
    (m m' : ℕ) (s s' : Holding) (d : ℤ) (es : List DeltaEntry)
    → exists_row (at_delta m s) (add_delta m' s' d es)
      ≡ ((m' == m && holding_eq s' s) || exists_row (at_delta m s) es)
unfolding exists_row add_delta
exists_row-add_delta m m' s s' d [] = refl
exists_row-add_delta m m' s s' d (e ∷ es) = elim (Bool-cases (at_delta m' s' e)) [
  | inl hit ↦ rw hit (
      rw (at_delta_of m m' s s' e hit)
        (or_twice (m' == m && holding_eq s' s) (exists_row (at_delta m s) es)))
  | inr miss ↦ rw miss (
      rw (exists_row-add_delta m m' s s' d es)
        (or_swap (at_delta m s e) (m' == m && holding_eq s' s) (exists_row (at_delta m s) es)))
]

add_delta-UniqueKeys :
    (m : ℕ) (s : Holding) (d : ℤ) (es : List DeltaEntry)
    → UniqueKeys es
    → UniqueKeys (add_delta m s d es)
unfolding add_delta exists_row
add_delta-UniqueKeys m s d [] h = (refl, tt)
add_delta-UniqueKeys m s d (e ∷ es) h = elim (Bool-cases (at_delta m s e)) [
  | inl hit ↦ rw hit h
  | inr miss ↦ rw miss (
    rw (exists_row-add_delta e.merch_id m e.status s d es, h.0) (apart miss),
    add_delta-UniqueKeys m s d es h.1,
  )
]
  where
    apart : at_delta m s e ≡ false → ((m == e.merch_id && holding_eq s e.status) || false) ≡ false
    apart miss = elim (Bool-cases (m == e.merch_id && holding_eq s e.status)) [
      | inr differs ↦ rw differs refl
      | inl same ↦
          let m_eq : m ≡ e.merch_id = (==_iff _ _).0 (ground arith) in
          let s_eq : s ≡ e.status = (holding_eq_iff _ _).0 (ground arith) in
          absurd (
            let no =
              rw (m_eq, s_eq, ==_self e.merch_id, (holding_eq_iff e.status e.status).1 refl) at
                miss in
            cc)
    ]

add_deltas-UniqueKeys :
    (m : ℕ) (ds : List (Holding × ℤ)) (es : List DeltaEntry)
    → UniqueKeys es
    → UniqueKeys (add_deltas m ds es)
unfolding add_deltas
add_deltas-UniqueKeys m [] es h = h
add_deltas-UniqueKeys m ((s, d) ∷ ds) es h =
    add_deltas-UniqueKeys m ds (add_delta m s d es) (add_delta-UniqueKeys m s d es h)

pub add_legs-UniqueKeys :
    (user_id : ℕ) (exclude : Option ℕ) (legs : List ProjectionLeg) (es : List DeltaEntry)
    → UniqueKeys es
    → UniqueKeys (add_legs user_id exclude legs es)
unfolding add_legs add_leg
add_legs-UniqueKeys user_id exclude [] es h = h
add_legs-UniqueKeys user_id exclude (leg ∷ legs) es h =
    elim (Bool-cases (is_excluded exclude leg)) [
      | inl dropped ↦ rw dropped (add_legs-UniqueKeys user_id exclude legs es h)
      | inr kept ↦ rw kept (
          add_legs-UniqueKeys user_id exclude legs (add_leg user_id leg es) (
            add_deltas-UniqueKeys leg.merch_id
              (projection_leg_deltas user_id leg.giver_user_id leg.quantity) es h))
    ]

zero_of_eqb : (a : ℤ) → eqb_ℤ a (pos 0) ≡ true → a ≡ pos 0
zero_of_eqb a h = ground arith

-- Dropping the zero entries leaves every delta as it reads.
pub delta_at-delete_zero :
    (m : ℕ) (s : Holding) (es : List DeltaEntry)
    → UniqueKeys es
    → delta_at m s (delete is_zero es) ≡ delta_at m s es
unfolding delta_at delete fetch
delta_at-delete_zero m s [] h = refl
delta_at-delete_zero m s (e ∷ es) h = elim (Bool-cases (is_zero e)) [
  | inr moves ↦ rw moves elim (Bool-cases (at_delta m s e)) [
    | inl here ↦ rw here refl
    | inr later ↦ rw later (delta_at-delete_zero m s es h.1)
  ]
  | inl zero_delta ↦ rw zero_delta elim (Bool-cases (at_delta m s e)) [
    | inr later ↦ rw later (delta_at-delete_zero m s es h.1)
    | inl here ↦ rw here (
        delta_at-delete_zero m s es h.1
        ∙ ap delta_or_zero (exists_row-false (at_delta m s) es (moved here))
        ∙ sym (zero_of_eqb e.delta zero_delta))
  ]
]
  where
    moved : at_delta m s e ≡ true → exists_row (at_delta m s) es ≡ false
    moved here =
        let m_eq : e.merch_id ≡ m = (==_iff _ _).0 (ground arith) in
        let s_eq : e.status ≡ s = (holding_eq_iff _ _).0 (ground arith) in rw (m_eq, s_eq) at h.0
