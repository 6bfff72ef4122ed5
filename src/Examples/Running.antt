-- ===== src/Examples/Running.antt =====
-- The theorems on proposals, completion and runs, at the small state.
use ymatch.Common.{
  ◌==◌, if◌then◌else◌, ℕ, ◌≡◌, refl, true, false, some, List, [], ◌∷◌, arith, select, fetch,
  exists_row, update, delete, All,
}
use ymatch.Common.Int.{pos, ◌+ℤ◌, add_i32, to_i32}
use ymatch.Error.{ok, err, conflict}
use ymatch.Store.{Status, offered, accepted, completed, MatchRow, Db, after}
use ymatch.Store.Matches.{
  find_match, OfferItem, lock_for_update, upsert_legs, upsert_all, upsert_leg, repeats_leg,
  remove_legs, set_status, set_offered_by, update_match,
}
use ymatch.Store.Matches.Evolve.{IsSound, RowMove}
use ymatch.Store.Inventory.{qty_of, any_of, insert_rows, quantities_for_status, want_quantities}
use ymatch.Store.Read.{count_merch_in_group}
use ymatch.Lifecycle.{
  Notice, offer, record_proposal, check_capacities, distinct, other_participant, change_status,
  apply_inventory,
}
use ymatch.Lifecycle.Guards.{
  validate_propose_transition, propose_from, validate_legs, validate_giver_trade_capacity, sum_legs,
  add_total, within_caps,
}
use ymatch.Lifecycle.Offers.{offer-MayPropose, MayPropose}
use ymatch.Lifecycle.Proposed.{leg_quantity, offered_quantity}
use ymatch.Lifecycle.Moves.{stamp_completed}
use ymatch.Lifecycle.Completion.{change_status-MayComplete, MayComplete}
use ymatch.Matching.Cases.{Indexed}
use ymatch.Runs.{Run, changes, ticks, here, next}
use ymatch.Runs.Safety.{Run-IsSound, Run-RowMove}
use ymatch.Runs.Once.{apply_inventory-once_ever}
use ymatch.Examples.{db_at, match_at}
use ymatch.Examples.Trading.{accepted_db, done_db, applied_db, accept_run, apply_run}

abbrev asks : List OfferItem
asks =
    record { merch_id = 10; giver_user_id = 1; quantity = pos 0 }
    ∷ record { merch_id = 11; giver_user_id = 2; quantity = pos 1 }
    ∷ []

abbrev countered_db : Db
countered_db = after (db_at offered) (offer 7 2 asks (db_at offered))

counter_run : offer 7 2 asks (db_at offered) ≡ ok (Notice.offer_received 1 2 7 ∷ [], countered_db)
unfolding offer lock_for_update find_match fetch validate_propose_transition propose_from
    count_merch_in_group distinct any_of check_capacities want_quantities quantities_for_status
    insert_rows qty_of validate_legs validate_giver_trade_capacity sum_legs add_total within_caps
    select exists_row record_proposal upsert_legs upsert_all upsert_leg repeats_leg remove_legs
    set_status set_offered_by update_match update delete other_participant add_i32 to_i32 ◌+ℤ◌
counter_run = refl

offer-MayPropose_example :
    (r : MatchRow) × (find_match 7 (db_at offered) ≡ some r)
    × MayPropose 2 r
    × (find_match 7 countered_db ≡ some (record r { status = offered; offered_by = some 2 }))
    × ((k g m : ℕ)
        → leg_quantity k g m countered_db.match_items ≡ (
            if k == 7
            then offered_quantity g m asks (leg_quantity k g m (db_at offered).match_items)
            else leg_quantity k g m (db_at offered).match_items))
    × (countered_db.inventory ≡ (db_at offered).inventory)
offer-MayPropose_example =
    offer-MayPropose 7 2 asks (db_at offered) countered_db (Notice.offer_received 1 2 7 ∷ [])
      counter_run

abbrev completed_row : MatchRow
completed_row = match_at completed

keys_at : (s : Status) → Indexed (db_at s)
unfolding fetch exists_row
keys_at s = ((refl, tt), (omega arith, tt), (refl, tt))

unstamped : (s : Status) → IsSound (match_at s)
unstamped s = record {
  completed1 = λ h. absurd (cc);
  completed2 = λ h. absurd (cc);
  applied1 = λ h. h;
  applied2 = λ h. h;
}

change_status-MayComplete_example :
    (db' : Db) × (change_status 7 2 completed (db_at accepted) ≡ ok ([], db'))
    × (find_match 7 db'
        ≡ some (stamp_completed 2 100 (record (match_at accepted) { status = completed })))
unfolding find_match fetch
change_status-MayComplete_example =
    change_status-MayComplete 7 2 (db_at accepted) (match_at accepted) (refl, tt)
      (unstamped accepted) refl refl (MayComplete.first refl)

abbrev accepting : Run (db_at offered) accepted_db
accepting = next here (changes 7 2 accepted (Notice.offer_accepted 1 2 7 ∷ []) accept_run)

Run-IsSound_example : Indexed accepted_db × All IsSound accepted_db.matches
Run-IsSound_example =
    Run-IsSound (db_at offered) accepted_db accepting (keys_at offered) (unstamped offered, tt)

Run-RowMove_example :
    (r' : MatchRow) × (find_match 7 accepted_db ≡ some r') × RowMove (match_at offered) r'
unfolding find_match fetch
Run-RowMove_example =
    Run-RowMove 7 (db_at offered) accepted_db (match_at offered) accepting (keys_at offered) refl

abbrev later_db : Db
later_db = record applied_db { now = 900 }

apply_inventory-once_ever_example :
    apply_inventory 7 1 true later_db ≡ err (conflict "Inventory already applied for this user")
unfolding fetch exists_row
apply_inventory-once_ever_example =
    apply_inventory-once_ever 7 1 false true done_db applied_db later_db tt
      ((refl, tt), (omega arith, tt), (refl, tt)) apply_run (next here (ticks 900 refl))
