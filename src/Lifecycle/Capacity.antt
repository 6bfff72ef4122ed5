-- ===== src/Lifecycle/Capacity.antt =====
-- ADR 0010: once a write of inventory has committed, no active match of the user lacks capacity.
use ymatch.Store.Matches.{mark_inventory_applied, snapshot_from_row}
use ymatch.Store.Matches.Lookup.{locked-eq_ok}
use ymatch.Store.Read.{list_match_items}
use ymatch.Lifecycle.Guards.{apply_inventory_delta}
use ymatch.Store.Steps.{lift-eq_ok, >>=-eq_ok}
use ymatch.Common.Int.{eqb_ℤ, ◌-ℤ◌, pos, InI32, to_i32, neg_i32, ltb_ℤ, ℤ}
use ymatch.Common.Rows.{All-mono}
use ymatch.Store.Capacity.Meaning.{scope_requires_cancel-false, can_give}
use ymatch.Common.{
  if◌then◌else◌, exists_row, or-eq_true, ==_self, ℕ, ◌≡◌, refl, inl, inr, Bool, true, false, ◌&&◌,
  ◌||◌, List, [], ◌∷◌, ◌++◌, map, arith, ◌==◌, Bool-cases, select, update, All,
}
use ymatch.Error.{ok}
use ymatch.Store.{pure, MatchItemRow, Holding, cancelled, MatchRow, Db, is_active}
use ymatch.Store.Inventory.{apply_trade_delta, upsert_in_tx, InventoryItem, any_of}
use ymatch.Store.Capacity.{
  system_message, is_cancelled_by, ActiveMatchScope, scope_of, scope_requires_cancel,
  list_active_scopes_for_user, system_cancel_matches, capacity_sum, mutual_capacity,
}
use ymatch.Store.Capacity.Cancel.{Covers, cancel_clears}
use ymatch.Lifecycle.{
  validate_apply, apply_inventory, apply_items, moves_capacity, update_inventory, pick_scopes,
  cancel_zero_capacity_for_user,
}

abbrev mine : ℕ → MatchRow → Bool
mine user_id r = r.user1_id == user_id || r.user2_id == user_id

-- The ids that the scan of the user's active matches collects.
abbrev picked : (ActiveMatchScope → Bool) → ℕ → List MatchRow → List ℕ
picked test user_id rs =
    pick_scopes test (map scope_of (select (λ r. mine user_id r && is_active r.status) rs))

picked_tail :
    (test : ActiveMatchScope → Bool) (user_id k : ℕ) (r : MatchRow) (rs : List MatchRow)
    → any_of k (picked test user_id rs) ≡ true
    → any_of k (picked test user_id (r ∷ rs)) ≡ true
unfolding select pick_scopes any_of
picked_tail test user_id k r rs h = elim (Bool-cases (mine user_id r && is_active r.status)) [
  | inl live ↦
      rw live
        (elim (Bool-cases (test (scope_of r))) [ inl t ↦ rw t (or-eq_true _ _ h) | inr t ↦ rw t h ])
  | inr dead ↦ rw dead h
]

picked_head :
    (test : ActiveMatchScope → Bool) (user_id : ℕ) (r : MatchRow) (rs : List MatchRow)
    → (mine user_id r && is_active r.status) ≡ true
    → test (scope_of r) ≡ true
    → any_of r.id (picked test user_id (r ∷ rs)) ≡ true
unfolding select pick_scopes any_of scope_of
picked_head test user_id r rs live t = rw live (rw t (rw (==_self r.id) refl))

picks-Covers :
    (test : ActiveMatchScope → Bool) (user_id : ℕ) (ids : List ℕ) (rs : List MatchRow)
    → ((k : ℕ) → any_of k (picked test user_id rs) ≡ true → any_of k ids ≡ true)
    → Covers test (mine user_id) ids rs
picks-Covers test user_id ids [] sub = tt
picks-Covers test user_id ids (r ∷ rs) sub = (
  λ live t. sub r.id (picked_head test user_id r rs live t),
  picks-Covers test user_id ids rs (λ k h. sub k (picked_tail test user_id k r rs h)),
)

-- Every active match of the user has capacity in both directions.
abbrev pub HasCapacity : ℕ → Db → Type 0
HasCapacity user_id db =
    All (λ s. scope_requires_cancel s db ≡ false) (list_active_scopes_for_user user_id db)

abbrev cancelled_db : List ℕ → Db → Db
cancelled_db ids db = record db {
  matches = update (is_cancelled_by ids) (λ r. record r { status = cancelled }) db.matches;
  messages =
      db.messages
      ++ map (system_message "INVENTORY_CAPACITY" db.now) (select (is_cancelled_by ids) db.matches);
}

cancel-HasCapacity :
    (user_id : ℕ) (db db' : Db) (n : ℕ)
    → cancel_zero_capacity_for_user user_id db ≡ ok (n, db')
    → HasCapacity user_id db'
unfolding cancel_zero_capacity_for_user system_cancel_matches list_active_scopes_for_user
    scope_requires_cancel mutual_capacity capacity_sum
cancel-HasCapacity user_id db db' n e =
    let test = λ (s : ActiveMatchScope). scope_requires_cancel s db in
    let ids = picked test user_id db.matches in
    let same : db' ≡ cancelled_db ids db = ground arith in
    rw same (
      cancel_clears test (mine user_id) ids db.matches (λ r. refl)
        (picks-Covers test user_id ids db.matches (λ k h. h)))

-- Both sides of the scope trade something that the other side wants.
abbrev pub CanTrade : Db → ActiveMatchScope → Type 0
CanTrade db s =
    (can_give s.user1_id s.user2_id s.event_id s.group_name db ≡ true)
    × (can_give s.user2_id s.user1_id s.event_id s.group_name db ≡ true)

HasCapacity-CanTrade :
    (user_id : ℕ) (db : Db)
    → HasCapacity user_id db
    → All (CanTrade db) (list_active_scopes_for_user user_id db)
HasCapacity-CanTrade user_id db h =
    All-mono (λ s. scope_requires_cancel s db ≡ false) (CanTrade db)
      (list_active_scopes_for_user user_id db) (λ s. scope_requires_cancel-false s db) h

-- After a successful `update_inventory` of a WANT or TRADE row, in every match of the user that is
-- still active each side trades a live item of the group that the other side wants.
pub update_inventory-CanTrade :
    (user_id merch_id : ℕ) (status : Holding) (quantity : ℤ) (db db' : Db) (item : InventoryItem)
    → moves_capacity status ≡ true
    → update_inventory user_id merch_id status quantity db ≡ ok (item, db')
    → All (CanTrade db') (list_active_scopes_for_user user_id db')
unfolding update_inventory
update_inventory-CanTrade user_id merch_id status quantity db db' item moves e =
    let (row, db1, _, e1) = >>=-eq_ok (upsert_in_tx user_id merch_id status quantity) _ db e in
    let (n, db2, e2, e3) =
      >>=-eq_ok (if moves_capacity status then cancel_zero_capacity_for_user user_id else pure 0) _
        db1 e1 in
    let same : db' ≡ db2 = ground arith in
    rw same
      (HasCapacity-CanTrade user_id db2 (cancel-HasCapacity user_id db1 db2 n (rw moves at e2)))

abbrev is_positive_leg : MatchItemRow → Bool
is_positive_leg i = ltb_ℤ (pos 0) i.quantity

or_flags : (c a b x : Bool) → (a || b) ≡ true → ((c || a || b) || x) ≡ true
or_flags c a b x h = ground arith

or_keeps : (c a b x : Bool) → (c || x) ≡ true → ((c || a || b) || x) ≡ true
or_keeps c a b x h = ground arith

-- A positive leg is not skipped, and moves TRADE of its giver or WANT of its receiver.
leg_moves :
    (giver_id user_id : ℕ) (q : ℤ) (skip : Bool)
    → InI32 q
    → ltb_ℤ (pos 0) q ≡ true
    → let (dt, dh, dw) = apply_inventory_delta giver_id user_id q skip in
      ((eqb_ℤ dt (pos 0) && eqb_ℤ dh (pos 0) && eqb_ℤ dw (pos 0)) ≡ false)
      × ((ltb_ℤ (pos 0) dt || ltb_ℤ dw (pos 0)) ≡ true)
unfolding apply_inventory_delta neg_i32 to_i32 ◌-ℤ◌
leg_moves giver_id user_id q skip fits positive = ground arith

apply_items-changed :
    (user_id : ℕ) (skip : Bool) (items : List MatchItemRow) (changed changed' : Bool) (db db' : Db)
    → All (λ i. InI32 i.quantity) items
    → (changed || exists_row is_positive_leg items) ≡ true
    → apply_items user_id skip items changed db ≡ ok (changed', db')
    → changed' ≡ true
unfolding apply_items exists_row
apply_items-changed user_id skip [] changed changed' db db' fits h e = ground arith
apply_items-changed user_id skip (i ∷ is) changed changed' db db' fits h e =
    let moved = leg_moves i.giver_user_id user_id i.quantity skip fits.0 in
    let d : ℤ × ℤ × ℤ = apply_inventory_delta i.giver_user_id user_id i.quantity skip in
    elim (Bool-cases (eqb_ℤ d.0 (pos 0) && eqb_ℤ d.1 (pos 0) && eqb_ℤ d.2 (pos 0))) [
      | inl idle ↦
          apply_items-changed user_id skip is changed changed' db db' fits.1
            (elim (Bool-cases (is_positive_leg i)) [
              | inl positive ↦ absurd (ground (arith, moved positive))
              | inr dry ↦ rw dry at h
            ])
            (rw idle at e)
      | inr busy ↦
          let (_, db1, _, e1) =
            >>=-eq_ok (apply_trade_delta user_id i.merch_id d.0 d.1 d.2) _ db (rw busy at e) in
          apply_items-changed user_id skip is _ changed' db1 db' fits.1
            (elim (Bool-cases (is_positive_leg i)) [
              | inl positive ↦ or_flags changed _ _ _ (moved positive).1
              | inr dry ↦ or_keeps changed _ _ _ (rw dry at h)
            ])
            e1
    ]

-- After a successful `apply_inventory` of a match with a positive leg, all of whose quantities fit an
-- i32, in every match of the user that is still active each side trades a live item of the group
-- that the other side wants.
pub apply_inventory-CanTrade :
    (match_id user_id : ℕ) (skip : Bool) (db db' : Db) (u : Unit {0})
    → All (λ i. InI32 i.quantity) (list_match_items match_id db)
    → exists_row is_positive_leg (list_match_items match_id db) ≡ true
    → apply_inventory match_id user_id skip db ≡ ok (u, db')
    → All (CanTrade db') (list_active_scopes_for_user user_id db')
unfolding apply_inventory
apply_inventory-CanTrade match_id user_id skip db db' u fits some_leg e =
    let (r, _, e1) = locked-eq_ok match_id _ _ db e in
    let (_, _, e2) = lift-eq_ok (validate_apply (snapshot_from_row r) user_id) _ db e1 in
    let (changed, db1, e3, e4) =
      >>=-eq_ok (apply_items user_id skip (list_match_items match_id db) false) _ db e2 in
    let (_, db2, _, e5) =
      >>=-eq_ok (mark_inventory_applied match_id (user_id == r.user1_id)) _ db1 e4 in
    let (n, db3, e6, e7) =
      >>=-eq_ok (if changed then cancel_zero_capacity_for_user user_id else pure 0) _ db2 e5 in
    let moved : changed ≡ true =
      apply_items-changed user_id skip _ false changed db db1 fits some_leg e3 in
    let same : db' ≡ db3 = ground arith in
    rw same
      (HasCapacity-CanTrade user_id db3 (cancel-HasCapacity user_id db2 db3 n (rw moved at e6)))
