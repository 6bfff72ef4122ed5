-- ===== src/Runs/Once.antt =====
-- Inventory is applied once to a side of a match, over any run.
use ymatch.Common.{ℕ, ◌≡◌, refl, Bool, true, false, Option, none, some, arith, ◌==◌}
use ymatch.Error.{ok, err, AppError}
use ymatch.Store.{completed, MatchRow, Db}
use ymatch.Store.Matches.{
  is_some, completed_column, applied_column, completed_by, applied_by, snapshot_from_row,
  lock_for_update,
}
use ymatch.Store.Matches.Evolve.{RowMove}
use ymatch.Lifecycle.{apply_inventory, validate_apply}
use ymatch.Lifecycle.Guards.{is_participant}
use ymatch.Lifecycle.Once.{apply_inventory-marks, marked}
use ymatch.Matching.Cases.{Indexed}
use ymatch.Runs.{Run, applies}
use ymatch.Runs.Safety.{Run-RowMove, Step-Grows}

-- What makes a further apply by the user fail.
record IsApplied (user_id : ℕ) (r : MatchRow) : Type 0 where
  done : r.status ≡ completed
  part : is_participant user_id r.user1_id r.user2_id ≡ true
  completed_side : is_some (completed_column (user_id == r.user1_id) r) ≡ true
  applied_side : is_some (applied_column (user_id == r.user1_id) r) ≡ true

marked-IsApplied :
    (user_id now : ℕ) (r : MatchRow)
    → validate_apply (snapshot_from_row r) user_id ≡ ok tt
    → IsApplied user_id (marked (user_id == r.user1_id) now r)
unfolding validate_apply completed_by applied_by
marked-IsApplied user_id now r e = record {
  done = ground arith;
  part = ground arith;
  completed_side = ground arith;
  applied_side = ground arith;
}

still_some :
    (o p : Option ℕ) → ((t : ℕ) → o ≡ some t → p ≡ some t) → is_some o ≡ true → is_some p ≡ true
still_some none p keep h = absurd (cc)
still_some (some t) p keep h = rw (keep t refl) refl

still_completed :
    (side : Bool) (r s : MatchRow)
    → RowMove r s
    → is_some (completed_column side r) ≡ true
    → is_some (completed_column side s) ≡ true
still_completed true r s move h = still_some _ _ move.keeps_completed1 h
still_completed false r s move h = still_some _ _ move.keeps_completed2 h

still_applied :
    (side : Bool) (r s : MatchRow)
    → RowMove r s
    → is_some (applied_column side r) ≡ true
    → is_some (applied_column side s) ≡ true
still_applied true r s move h = still_some _ _ move.keeps_applied1 h
still_applied false r s move h = still_some _ _ move.keeps_applied2 h

moved-IsApplied :
    (user_id : ℕ) (r s : MatchRow) → RowMove r s → IsApplied user_id r → IsApplied user_id s
moved-IsApplied user_id r s move h = record {
  done = move.stays_completed h.done;
  part = rw (move.same_user1, move.same_user2) h.part;
  completed_side =
      rw move.same_user1 (still_completed (user_id == r.user1_id) r s move h.completed_side);
  applied_side = rw move.same_user1 (still_applied (user_id == r.user1_id) r s move h.applied_side);
}

refused :
    (user_id : ℕ) (r : MatchRow)
    → IsApplied user_id r
    → validate_apply (snapshot_from_row r) user_id
      ≡ err (AppError.conflict "Inventory already applied for this user")
unfolding validate_apply completed_by applied_by
refused user_id r h = ground (arith, h.done, h.part, h.completed_side, h.applied_side)

-- After an apply by a user has succeeded, and after whatever run of calls, matcher passes and cascades
-- follows it, a further apply by that user for that match is refused with 409: no interleaving
-- moves the quantities of a side twice.
pub apply_inventory-once_ever :
    (match_id user_id : ℕ) (skip skip' : Bool) (db db1 db2 : Db) (u : Unit {0})
    → Indexed db
    → apply_inventory match_id user_id skip db ≡ ok (u, db1)
    → Run db1 db2
    → apply_inventory match_id user_id skip' db2
      ≡ err (AppError.conflict "Inventory already applied for this user")
unfolding apply_inventory lock_for_update
apply_inventory-once_ever match_id user_id skip skip' db db1 db2 u indexed e run =
    let (r, now, valid, found) = apply_inventory-marks match_id user_id skip db db1 u e in
    let (keys, _, _) = Step-Grows db db1 (applies match_id user_id skip u e) indexed in
    let (r', found', move) =
      Run-RowMove match_id db1 db2 (marked (user_id == r.user1_id) now r) run keys found in
    rw
      (
        found',
        refused user_id r'
            (moved-IsApplied user_id _ r' move (marked-IsApplied user_id now r valid)),
      )
      refl
