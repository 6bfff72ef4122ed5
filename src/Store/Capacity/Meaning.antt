-- ===== src/Store/Capacity/Meaning.antt =====
-- What a mutual capacity says: when the sum of LEASTs is positive, and what its cast to i32 loses.
use ymatch.Common.{
  ℕ, ◌≤◌, ◌<◌, String, ◌≡◌, refl, ◌↔◌, ◌⊎◌, inl, inr, Bool, true, false, ◌&&◌, List, [], ◌∷◌, arith,
  ◌==◌, Bool-cases, exists_row,
}
use ymatch.Common.{total}
use ymatch.Common.Int.{to_i32-eq, InI32, ℤ, pos, ◌≤ℤ◌, int_laws, ltb_ℤ, to_i32}
use ymatch.Store.{trade, want, InventoryRow, MerchRow, Db, holding_eq}
use ymatch.Store.Matches.{is_live_in}
use ymatch.Store.Capacity.{
  ActiveMatchScope, wanted_part, traded_part, capacity_sum, mutual_capacity, scope_requires_cancel,
  capacity_requires_cancel,
}

-- A sum of values that are not negative is positive when one of them is.
abbrev Signals {ℓ} : {A : Type ℓ} → (A → Bool) → (A → ℤ) → Type ℓ
Signals {A} p f = (r : A) → (pos 0 ≤ℤ f r) × ((p r ≡ true) ↔ (pos 1 ≤ℤ f r))

module _ {ℓ} {A : Type ℓ} (p : A → Bool) (f : A → ℤ) (s : Signals p f) where
  total_nonneg : (rs : List A) → pos 0 ≤ℤ total f rs
  unfolding total
  total_nonneg [] = omega arith
  total_nonneg (r ∷ rs) = omega (int_laws, total_nonneg rs, (s r).0)

  total_pos : (rs : List A) → (exists_row p rs ≡ true) ↔ (pos 1 ≤ℤ total f rs)
  unfolding total exists_row
  total_pos [] = (λ h. absurd (ground arith), λ h. absurd (omega arith))
  total_pos (r ∷ rs) = elim (Bool-cases (p r)) [
    | inl hit ↦ rw hit ((λ _. omega (int_laws, total_nonneg rs, (s r).1.0 hit)), λ _. refl)
    | inr miss ↦ rw miss (
      λ h. omega (int_laws, (total_pos rs).0 h, (s r).0),
      λ h.
          let dry : ¬ (pos 1 ≤ℤ f r) = λ k. cc ((s r).1.1 k) in
          (total_pos rs).1 (omega (int_laws, dry, h)),
    )
  ]

abbrev pub is_wanted : ℕ → InventoryRow → InventoryRow → Bool
is_wanted receiver_user_id t w =
    w.merch_id == t.merch_id
    && w.user_id == receiver_user_id
    && holding_eq w.status want
    && ltb_ℤ (pos 0) w.quantity

abbrev pub is_traded : ℕ → ℕ → String → Db → InventoryRow → Bool
is_traded giver_user_id event_id group_name db t =
    t.user_id == giver_user_id
    && holding_eq t.status trade
    && ltb_ℤ (pos 0) t.quantity
    && exists_row (λ (m : MerchRow). m.id == t.merch_id && is_live_in event_id group_name m)
        db.merchandise

-- The giver trades a live item of the group that the receiver wants.
unfoldable pub can_give : ℕ → ℕ → ℕ → String → Db → Bool
can_give giver_user_id receiver_user_id event_id group_name db =
    exists_row
      (λ t.
        is_traded giver_user_id event_id group_name db t
        && exists_row (is_wanted receiver_user_id t) db.inventory)
      db.inventory

wanted-Signals :
    (receiver_user_id : ℕ) (t : InventoryRow)
    → pos 1 ≤ℤ t.quantity
    → Signals (is_wanted receiver_user_id t) (wanted_part receiver_user_id t)
wanted-Signals receiver_user_id t h w = elim (Bool-cases (is_wanted receiver_user_id t w)) [
  | inl hit ↦
      let q : pos 1 ≤ℤ w.quantity = ground arith in
      rw hit (ground arith, (λ _. ground arith, λ _. refl))
  | inr miss ↦ rw miss (omega arith, (λ h. absurd (ground arith), λ h. absurd (omega arith)))
]

traded-Signals :
    (giver_user_id receiver_user_id event_id : ℕ) (group_name : String) (db : Db)
    → Signals
        (λ t.
          is_traded giver_user_id event_id group_name db t
          && exists_row (is_wanted receiver_user_id t) db.inventory)
        (traded_part giver_user_id receiver_user_id event_id group_name db)
traded-Signals giver receiver event_id group_name db t =
    elim (Bool-cases (is_traded giver event_id group_name db t)) [
      | inl hit ↦
          let q : pos 1 ≤ℤ t.quantity = ground arith in
          let sums = wanted-Signals receiver t q in
          rw hit (
            total_nonneg (is_wanted receiver t) (wanted_part receiver t) sums db.inventory,
            total_pos (is_wanted receiver t) (wanted_part receiver t) sums db.inventory,
          )
      | inr miss ↦ rw miss (omega arith, (λ h. absurd (ground arith), λ h. absurd (omega arith)))
    ]

-- The sum of a direction is positive exactly when the giver trades something that the receiver wants.
pub capacity_sum-pos_iff :
    (giver_user_id receiver_user_id event_id : ℕ) (group_name : String) (db : Db)
    → (can_give giver_user_id receiver_user_id event_id group_name db ≡ true)
      ↔ (pos 1 ≤ℤ capacity_sum giver_user_id receiver_user_id event_id group_name db)
unfolding can_give capacity_sum
capacity_sum-pos_iff giver receiver event_id group_name db =
    total_pos _ _ (traded-Signals giver receiver event_id group_name db) db.inventory

pub capacity_sum_nonneg :
    (giver_user_id receiver_user_id event_id : ℕ) (group_name : String) (db : Db)
    → pos 0 ≤ℤ capacity_sum giver_user_id receiver_user_id event_id group_name db
unfolding capacity_sum
capacity_sum_nonneg giver receiver event_id group_name db =
    total_nonneg _ _ (traded-Signals giver receiver event_id group_name db) db.inventory

to_i32_pos : (x : ℤ) → pos 0 ≤ℤ x → pos 1 ≤ℤ to_i32 x → pos 1 ≤ℤ x
unfolding to_i32
to_i32_pos x h k = ground arith

-- A scope that need not be cancelled can give in both directions.
pub scope_requires_cancel-false :
    (s : ActiveMatchScope) (db : Db)
    → scope_requires_cancel s db ≡ false
    → (can_give s.user1_id s.user2_id s.event_id s.group_name db ≡ true)
      × (can_give s.user2_id s.user1_id s.event_id s.group_name db ≡ true)
unfolding scope_requires_cancel capacity_requires_cancel mutual_capacity
scope_requires_cancel-false s db h = (
  (capacity_sum-pos_iff s.user1_id s.user2_id s.event_id s.group_name db).1 (
      to_i32_pos (capacity_sum s.user1_id s.user2_id s.event_id s.group_name db)
        (capacity_sum_nonneg s.user1_id s.user2_id s.event_id s.group_name db) (ground arith)),
  (capacity_sum-pos_iff s.user2_id s.user1_id s.event_id s.group_name db).1 (
      to_i32_pos (capacity_sum s.user2_id s.user1_id s.event_id s.group_name db)
        (capacity_sum_nonneg s.user2_id s.user1_id s.event_id s.group_name db) (ground arith)),
)

-- Where both sums fit an i32, a scope is to be cancelled exactly when one side trades nothing live of
-- the group that the other side wants.
pub scope_requires_cancel_iff :
    (s : ActiveMatchScope) (db : Db)
    → InI32 (capacity_sum s.user1_id s.user2_id s.event_id s.group_name db)
    → InI32 (capacity_sum s.user2_id s.user1_id s.event_id s.group_name db)
    → (scope_requires_cancel s db ≡ true) ↔ (
        (can_give s.user1_id s.user2_id s.event_id s.group_name db ≡ false)
        ⊎ (can_give s.user2_id s.user1_id s.event_id s.group_name db ≡ false))
unfolding scope_requires_cancel capacity_requires_cancel mutual_capacity
scope_requires_cancel_iff s db fits1 fits2 =
    let iff1 = capacity_sum-pos_iff s.user1_id s.user2_id s.event_id s.group_name db in
    let iff2 = capacity_sum-pos_iff s.user2_id s.user1_id s.event_id s.group_name db in
    rw (to_i32-eq _ fits1, to_i32-eq _ fits2)
      (λ h. ground (arith, iff1, iff2), λ h. ground (arith, iff1, iff2))

-- The cast loses capacity: where the sum of what user 1 can give lies from 2^31 to 2^32 - 1, it reads
-- as negative, and the scope is cancelled although user 1 trades something that user 2 wants.
pub mutual_capacity_wraps :
    (s : ActiveMatchScope) (db : Db) (n : ℕ)
    → capacity_sum s.user1_id s.user2_id s.event_id s.group_name db ≡ pos n
    → 2147483648 ≤ n
    → n < 4294967296
    → (can_give s.user1_id s.user2_id s.event_id s.group_name db ≡ true)
      × (scope_requires_cancel s db ≡ true)
unfolding scope_requires_cancel capacity_requires_cancel mutual_capacity to_i32
mutual_capacity_wraps s db n e lo hi = (
  (capacity_sum-pos_iff s.user1_id s.user2_id s.event_id s.group_name db).1 (rw e (omega arith)),
  rw e (ground arith),
)
