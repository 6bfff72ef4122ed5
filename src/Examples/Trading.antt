-- ===== src/Examples/Trading.antt =====
-- The theorems of the store, the life cycle and the matcher at the small state.
use ymatch.Matching.Pass.{Refers, run_matching_algorithm-Indexed}
use ymatch.Lifecycle.Legs.{validate_legs_iff, validate_giver_trade_capacity_iff, WithinCaps}
use ymatch.Lifecycle.Sums.{IsLeg}
use ymatch.Lifecycle.Capacity.{apply_inventory-CanTrade, update_inventory-CanTrade, CanTrade}
use ymatch.Matching.Cases.{HasRoom, Indexed}
use ymatch.Matching.Ensure.{ensure_match_for_pair-Ensured, Ended}
use ymatch.Store.Capacity.Meaning.{scope_requires_cancel_iff, mutual_capacity_wraps, can_give}
use ymatch.Store.Capacity.{
  system_cancel_matches, mutual_capacity, capacity_requires_cancel, scope_of, scope_requires_cancel,
  list_active_scopes_for_user, capacity_sum, ActiveMatchScope,
}
use ymatch.Matching.{run_matching_algorithm, ensure_match_for_pair}
use ymatch.Common.{
  ◌⊎◌, arith, total, true, List, none, All, ◌↔◌, ℕ, ◌≡◌, refl, false, some, [], ◌∷◌, select, fetch,
  exists_row, update,
}
use ymatch.Examples.{stocked, db_at, match_at}
use ymatch.Common.Int.{neg_i32, neg_i32, ◌-ℤ◌, pos, ◌+ℤ◌, to_i32, add_i32}
use ymatch.Error.{ok}
use ymatch.Store.{rejected, after, want, Db, offered, accepted, completed, MatchRow, trade}
use ymatch.Store.Matches.{
  mark_inventory_applied, applied_by, OfferItem, completed_by, find_match, lock_for_update,
  update_match, set_status,
}
use ymatch.Store.Inventory.{
  stock, have_inc, adjust, apply_trade_delta, returned, insert_or_update, row_is_allowed,
  upsert_in_tx, qty_of, any_of, insert_rows, quantities_for_status, want_quantities, InventoryItem,
}
use ymatch.Store.Read.{list_match_items, order_by_giver, insert_by_giver}
use ymatch.Lifecycle.Guards.{
  apply_inventory_delta, receiver_wants, giver_trades, validate_participation,
  validate_transition_target, validate_status_transition, sum_legs, add_total, within_caps,
  validate_legs, validate_giver_trade_capacity, balance_sums, is_balanced,
}
use ymatch.Lifecycle.{
  pick_scopes, cancel_zero_capacity_for_user, apply_items, validate_apply, change_status, Notice,
  update_inventory, apply_inventory, other_participant, distinct, check_capacities, accept_gate,
  accept, change_locked,
}
use ymatch.Lifecycle.Accept.{accepted-WithinCaps, Fair}
use ymatch.Lifecycle.{item_of}
use ymatch.Common.{map}
use ymatch.Lifecycle.Moves.{change_status-Move, Move, TakesPart}

abbrev pub accepted_db : Db
accepted_db = record (db_at offered) { matches = match_at accepted ∷ [] }

pub accept_run :
    change_status 7 2 accepted (db_at offered) ≡ ok (Notice.offer_accepted 1 2 7 ∷ [], accepted_db)
unfolding change_status validate_transition_target lock_for_update find_match fetch
    validate_participation validate_status_transition change_locked accept accept_gate
    list_match_items order_by_giver insert_by_giver select exists_row is_balanced balance_sums
    check_capacities want_quantities quantities_for_status insert_rows qty_of any_of validate_legs
    validate_giver_trade_capacity sum_legs add_total within_caps set_status update_match update
    other_participant add_i32 to_i32 ◌+ℤ◌ distinct
accept_run = refl

change_status-Move_example :
    (r : MatchRow) × (r' : MatchRow) × (find_match 7 (db_at offered) ≡ some r)
    × (find_match 7 accepted_db ≡ some r')
    × TakesPart 2 r
    × Move 2 100 r r'
unfolding fetch
change_status-Move_example =
    change_status-Move 7 2 accepted (db_at offered) accepted_db (Notice.offer_accepted 1 2 7 ∷ [])
      (refl, tt) accept_run

accepted-WithinCaps_example :
    (r : MatchRow) × (find_match 7 (db_at offered) ≡ some r)
    × Fair r (map item_of (list_match_items 7 (db_at offered))) (db_at offered)
unfolding list_match_items order_by_giver insert_by_giver select exists_row
accepted-WithinCaps_example =
    accepted-WithinCaps 7 2 (db_at offered) accepted_db (Notice.offer_accepted 1 2 7 ∷ [])
      (omega arith) accept_run

abbrev pub more_db : Db
more_db = after (db_at offered) (update_inventory 1 10 trade (pos 5) (db_at offered))

abbrev pub stored : InventoryItem
stored = record {
  id = 1;
  user_id = 1;
  merch_id = 10;
  status = trade;
  quantity = pos 5;
  merch_name = some "";
  photo_url = none;
  group_name = none;
  is_deleted = none;
  projected_quantity = none;
}

pub update_run : update_inventory 1 10 trade (pos 5) (db_at offered) ≡ ok (stored, more_db)
unfolding update_inventory upsert_in_tx row_is_allowed insert_or_update returned fetch exists_row
    update cancel_zero_capacity_for_user pick_scopes list_active_scopes_for_user scope_of select
    scope_requires_cancel capacity_requires_cancel mutual_capacity capacity_sum total to_i32 ◌+ℤ◌
    system_cancel_matches
update_run = refl

update_inventory-CanTrade_example : All (CanTrade more_db) (list_active_scopes_for_user 1 more_db)
update_inventory-CanTrade_example =
    update_inventory-CanTrade 1 10 trade (pos 5) (db_at offered) more_db stored refl update_run

abbrev pub done_db : Db
done_db = record (db_at completed) {
  matches = record (match_at completed) { user1_completed_at = some 50 } ∷ [];
}

abbrev pub applied_db : Db
applied_db = after done_db (apply_inventory 7 1 false done_db)

pub apply_run : apply_inventory 7 1 false done_db ≡ ok (tt, applied_db)
unfolding apply_inventory lock_for_update find_match fetch validate_apply completed_by applied_by
    validate_participation list_match_items order_by_giver insert_by_giver select exists_row
    apply_items apply_inventory_delta apply_trade_delta adjust have_inc stock row_is_allowed
    insert_or_update update mark_inventory_applied update_match cancel_zero_capacity_for_user
    pick_scopes list_active_scopes_for_user scope_of scope_requires_cancel capacity_requires_cancel
    mutual_capacity capacity_sum total to_i32 ◌+ℤ◌ ◌-ℤ◌ neg_i32 add_i32 system_cancel_matches
apply_run = refl

apply_inventory-CanTrade_example :
    All (CanTrade applied_db) (list_active_scopes_for_user 1 applied_db)
unfolding list_match_items order_by_giver insert_by_giver select exists_row
apply_inventory-CanTrade_example =
    apply_inventory-CanTrade 7 1 false done_db applied_db tt
      ((omega arith, omega arith), ((omega arith, omega arith), tt)) refl apply_run

abbrev pub terminal_db : Db
terminal_db = db_at rejected

ensure_match_for_pair-Ensured_example :
    Ended 2 1 5 "A" terminal_db (ensure_match_for_pair 2 1 5 "A" terminal_db)
unfolding fetch exists_row
ensure_match_for_pair-Ensured_example =
    ensure_match_for_pair-Ensured 2 1 5 "A" terminal_db ((refl, tt), (omega arith, tt), (refl, tt))

run_matching_algorithm-Indexed_example :
    (n : ℕ) × (db' : Db) × (run_matching_algorithm terminal_db ≡ ok (n, db'))
    × Indexed db'
    × Refers db'
    × All HasRoom db'.matches
unfolding fetch exists_row
run_matching_algorithm-Indexed_example =
    run_matching_algorithm-Indexed terminal_db ((refl, tt), (omega arith, tt), (refl, tt))
      ((refl, (refl, (refl, (refl, tt)))), (refl, (refl, tt))) ((λ _. refl), tt)

abbrev items : List OfferItem
items =
    record { merch_id = 10; giver_user_id = 1; quantity = pos 2 }
    ∷ record { merch_id = 11; giver_user_id = 2; quantity = pos 1 }
    ∷ []

validate_legs_iff_example :
    (validate_legs items 1 2 ((11, pos 1) ∷ []) ((10, pos 3) ∷ []) ≡ ok tt) ↔ (
      All (IsLeg 1 2) items
      × WithinCaps (receiver_wants 1 2 ((11, pos 1) ∷ []) ((10, pos 3) ∷ [])) items)
validate_legs_iff_example =
    validate_legs_iff items 1 2 ((11, pos 1) ∷ []) ((10, pos 3) ∷ []) (omega arith)

validate_giver_trade_capacity_iff_example :
    (validate_giver_trade_capacity items 1 2 ((10, pos 1) ∷ []) ((11, pos 3) ∷ []) ≡ ok tt) ↔ (
      All (IsLeg 1 2) items
      × WithinCaps (giver_trades 1 ((10, pos 1) ∷ []) ((11, pos 3) ∷ [])) items)
validate_giver_trade_capacity_iff_example =
    validate_giver_trade_capacity_iff items 1 2 ((10, pos 1) ∷ []) ((11, pos 3) ∷ []) (omega arith)

abbrev scope : ActiveMatchScope
scope = record { id = 7; user1_id = 1; user2_id = 2; event_id = 5; group_name = "A" }

scope_requires_cancel_iff_example :
    (scope_requires_cancel scope (db_at offered) ≡ true)
    ↔ ((can_give 1 2 5 "A" (db_at offered) ≡ false) ⊎ (can_give 2 1 5 "A" (db_at offered) ≡ false))
unfolding capacity_sum total ◌+ℤ◌ exists_row
scope_requires_cancel_iff_example =
    scope_requires_cancel_iff scope (db_at offered) (omega arith, omega arith)
      (omega arith, omega arith)

abbrev hoard : Db
hoard = record (db_at offered) {
  inventory =
      stocked 1 1 10 trade 2147483647
      ∷ stocked 2 1 11 trade 2147483647
      ∷ stocked 3 2 10 want 2147483647
      ∷ stocked 4 2 11 want 2147483647
      ∷ [];
}

mutual_capacity_wraps_example :
    (can_give 1 2 5 "A" hoard ≡ true) × (scope_requires_cancel scope hoard ≡ true)
unfolding capacity_sum total ◌+ℤ◌ exists_row
mutual_capacity_wraps_example =
    mutual_capacity_wraps scope hoard 4294967294 refl (omega arith) (omega arith)
