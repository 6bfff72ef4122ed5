-- ===== src/Lifecycle/Evolve/Calls.antt =====
-- What the other operations of the life cycle do to the rows.
use ymatch.Common.{
  ℕ, ◌≡◌, refl, ap, ◌∙◌, ◌≢◌, Bool, true, false, some, List, arith, ◌==◌, if◌then◌else◌,
}
use ymatch.Error.{ok}
use ymatch.Store.{completed, offered, MatchRow, Db, pure, Holding}
use ymatch.Common.Int.{ℤ}
use ymatch.Store.Steps.{>>=-eq_ok, lift-eq_ok}
use ymatch.Store.Inventory.{InventoryItem, upsert_in_tx, insert_or_update}
use ymatch.Store.Matches.{
  is_some, completed_column, find_match, update_match, mark_inventory_applied, snapshot_from_row,
  OfferItem, completed_by,
}
use ymatch.Store.Matches.Lookup.{UniqueIds, find_match-updated, locked-eq_ok}
use ymatch.Store.Read.{list_match_items}
use ymatch.Lifecycle.{
  Notice, offer, apply_inventory, apply_items, validate_apply, update_inventory, moves_capacity,
  cancel_zero_capacity_for_user,
}
use ymatch.Lifecycle.Guards.{validate_propose_transition, propose_from}
use ymatch.Lifecycle.Offers.{offer-eq_ok, proposed_legs}
use ymatch.Lifecycle.Once.{marked, match_table, apply_items-matches, lookup-frame}
use ymatch.Lifecycle.RowMoves.{open-RowMove, mark-RowMove, proposer-RowMove}
use ymatch.Lifecycle.Evolve.{
  Moved, Moved-trans, Moved-UniqueIds, update_match-Moved, same_table-Moved, maybe_cancel-Moved,
}

offer_open :
    (user_id : ℕ) (r : MatchRow) (u : Unit {0})
    → validate_propose_transition r.status user_id r.user1_id r.user2_id r.offered_by ≡ ok u
    → r.status ≢ completed
unfolding validate_propose_transition propose_from
offer_open user_id r u e = λ done. absurd (ground arith)

pub offer-Moved :
    (match_id user_id : ℕ) (items : List OfferItem) (db db' : Db) (ns : List Notice)
    → UniqueIds db.matches
    → offer match_id user_id items db ≡ ok (ns, db')
    → Moved db db'
offer-Moved match_id user_id items db db' ns unique e =
    let (r, found, may, _, _, done) = offer-eq_ok match_id user_id items db db' ns e in
    let db1 : Db = record db { match_items = proposed_legs match_id items db } in
    let set = λ (x : MatchRow). let y : MatchRow = record x { status = offered } in y in
    let by = λ (x : MatchRow). let y : MatchRow = record x { offered_by = some user_id } in y in
    let found1 = lookup-frame match_id db db1 refl ∙ found in
    let first : Moved db1 (update_match match_id set db1) =
      update_match-Moved match_id set db1 unique found1
        (open-RowMove r offered (offer_open user_id r tt may)) in
    let second =
      update_match-Moved match_id by (update_match match_id set db1)
        (Moved-UniqueIds db1 (update_match match_id set db1) first unique)
        (find_match-updated match_id set db1 r (λ x. refl) found1)
        (proposer-RowMove (set r) user_id) in
    rw done (
      Moved-trans db (update_match match_id set db1)
        (update_match match_id by (update_match match_id set db1)) first second)

mark-Moved :
    (match_id : ℕ) (is_user1 : Bool) (db db' : Db) {r : MatchRow} (u : Unit {0})
    → UniqueIds db.matches
    → find_match match_id db ≡ some r
    → r.status ≡ completed
    → is_some (completed_column is_user1 r) ≡ true
    → mark_inventory_applied match_id is_user1 db ≡ ok (u, db')
    → Moved db db'
unfolding mark_inventory_applied
mark-Moved match_id is_user1 db db' {r} u unique found done side e =
    let same : db' ≡ update_match match_id (marked is_user1 db.now) db = ground arith in
    rw same (
      update_match-Moved match_id (marked is_user1 db.now) db unique found
        (mark-RowMove db.now r done is_user1 side))

applies :
    (user_id : ℕ) (r : MatchRow) (u : Unit {0})
    → validate_apply (snapshot_from_row r) user_id ≡ ok u
    → (r.status ≡ completed) × (is_some (completed_column (user_id == r.user1_id) r) ≡ true)
unfolding validate_apply completed_by
applies user_id r u e = ground arith

pub apply_inventory-Moved :
    (match_id user_id : ℕ) (skip : Bool) (db db' : Db) (u : Unit {0})
    → UniqueIds db.matches
    → apply_inventory match_id user_id skip db ≡ ok (u, db')
    → Moved db db'
unfolding apply_inventory
apply_inventory-Moved match_id user_id skip db db' u unique e =
    let (r, found, e1) = locked-eq_ok match_id _ _ db e in
    let (v, valid, e2) = lift-eq_ok (validate_apply (snapshot_from_row r) user_id) _ db e1 in
    let (changed, db1, e3, e4) =
      >>=-eq_ok (apply_items user_id skip (list_match_items match_id db) false) _ db e2 in
    let (w, db2, e5, e6) =
      >>=-eq_ok (mark_inventory_applied match_id (user_id == r.user1_id)) _ db1 e4 in
    let (n, db3, e7, e8) =
      >>=-eq_ok (if changed then cancel_zero_capacity_for_user user_id else pure 0) _ db2 e6 in
    let same = apply_items-matches user_id skip _ false changed db db1 e3 in
    let first = same_table-Moved db db1 same in
    let (done, side) = applies user_id r v valid in
    let found1 = lookup-frame match_id db db1 (ap (λ (t : List MatchRow × ℕ). t.0) same) ∙ found in
    let second =
      mark-Moved match_id (user_id == r.user1_id) db1 db2 w (Moved-UniqueIds db db1 first unique)
        found1 done side e5 in
    let third = maybe_cancel-Moved changed user_id n db2 db3 e7 in
    let last : db' ≡ db3 = ground arith in
    rw last (Moved-trans db db1 db3 first (Moved-trans db1 db2 db3 second third))

upsert-match_table :
    (user_id merch_id : ℕ) (status : Holding) (quantity : ℤ) (db db' : Db) (item : InventoryItem)
    → upsert_in_tx user_id merch_id status quantity db ≡ ok (item, db')
    → match_table db' ≡ match_table db
unfolding upsert_in_tx insert_or_update
upsert-match_table user_id merch_id status quantity db db' item e = ground arith

pub update_inventory-Moved :
    (user_id merch_id : ℕ) (status : Holding) (quantity : ℤ) (db db' : Db) (item : InventoryItem)
    → update_inventory user_id merch_id status quantity db ≡ ok (item, db')
    → Moved db db'
unfolding update_inventory
update_inventory-Moved user_id merch_id status quantity db db' item e =
    let (i, db1, e1, e2) = >>=-eq_ok (upsert_in_tx user_id merch_id status quantity) _ db e in
    let (n, db2, e3, e4) =
      >>=-eq_ok (if moves_capacity status then cancel_zero_capacity_for_user user_id else pure 0) _
        db1 e2 in
    let last : db' ≡ db2 = ground arith in
    rw last (
      Moved-trans db db1 db2
        (same_table-Moved db db1 (upsert-match_table user_id merch_id status quantity db db1 i e1))
        (maybe_cancel-Moved (moves_capacity status) user_id n db1 db2 e3))
