-- ===== src/Lifecycle.antt =====
-- backend/src/services/match_lifecycle.rs: the transactions of the match state machine. Each public
-- operation is one transaction and returns the push notices that it schedules after its commit.
pub mod Guards
pub mod Moves
pub mod Capacity
pub mod Sums
pub mod Legs
pub mod Once
pub mod Accept
pub mod RowMoves
pub mod Proposed
pub mod Offers
pub mod Completion
pub mod Evolve
use ymatch.Common.{
  ℕ, String, Bool, true, false, not, ◌&&◌, ◌||◌, Option, none, some, List, [], ◌∷◌, map, ◌==◌,
  if◌then◌else◌, length,
}
use ymatch.Common.Int.{ℤ, pos, ltb_ℤ, eqb_ℤ}
use ymatch.Error.{AppError, Result, ok, err, bad_request, forbidden, not_found, conflict}
use ymatch.Store.{
  Status, offered, accepted, completed, rejected, Holding, want, trade, MatchItemRow, Db, Tx, pure,
  fail, ◌>>=◌, ◌>>◌, lift, reads, or_fail, is_completed,
}
use ymatch.Store.Inventory.{
  InventoryItem, QtyMap, any_of, upsert_in_tx, apply_trade_delta, quantities_for_status,
  want_quantities,
}
use ymatch.Store.Matches.{
  Snapshot, OfferItem, lock_for_update, set_status, set_offered_by, upsert_legs, remove_legs,
  delete_match_items, mark_inventory_applied, mark_completed, applied_by, completed_by,
}
use ymatch.Store.Read.{count_merch_in_group, list_match_items}
use ymatch.Store.Capacity.{
  ActiveMatchScope, list_active_scopes_for_user, scope_requires_cancel, system_cancel_matches,
}
use Guards.{
  is_participant, proposer_or, CompleteAction, complete_match, mark_self,
  validate_propose_transition, validate_participation, validate_transition_target,
  validate_status_transition, validate_complete, validate_legs, validate_giver_trade_capacity,
  is_balanced, apply_inventory_delta,
}

-- A push notice: recipient, acting user and match.
pub data Notice : Type 0 where
  offer_received offer_accepted : ℕ → ℕ → ℕ → Notice

-- `notifications::other_participant`
unfoldable pub other_participant : ℕ → ℕ → ℕ → ℕ
other_participant user1_id user2_id actor_id = if actor_id == user1_id then user2_id else user1_id

abbrev pub merch_of : OfferItem → ℕ
merch_of i = i.merch_id

-- The distinct values of a list, as a HashSet counts them.
unfoldable pub distinct : List ℕ → List ℕ
unfolding any_of
distinct [] = []
distinct (k ∷ ks) = let rest = distinct ks in if any_of k ks then rest else k ∷ rest

-- The WANT and TRADE checks that `offer` and the accept gate share.
unfoldable pub check_capacities : List OfferItem → ℕ → ℕ → Tx (Unit {0})
check_capacities items user1_id user2_id = do
  user1_wants ← reads (want_quantities user1_id (map merch_of items))
  user2_wants ← reads (want_quantities user2_id (map merch_of items))
  lift (validate_legs items user1_id user2_id user1_wants user2_wants)
  user1_trade ← reads (quantities_for_status user1_id (map merch_of items) trade)
  user2_trade ← reads (quantities_for_status user2_id (map merch_of items) trade)
  lift (validate_giver_trade_capacity items user1_id user2_id user1_trade user2_trade)

abbrev pub is_empty : List OfferItem → Bool
is_empty [] = true
is_empty (_ ∷ _) = false

-- The writes of a proposal.
unfoldable pub record_proposal : ℕ → ℕ → List OfferItem → Tx (Unit {0})
record_proposal match_id user_id items = do
  upsert_legs match_id items
  remove_legs match_id items
  set_status match_id offered
  set_offered_by match_id user_id

-- `offer`: user_id and items are the request's.
unfoldable pub offer : ℕ → ℕ → List OfferItem → Tx (List Notice)
offer match_id user_id items = do
  if is_empty items then fail (bad_request "Must select at least one item") else pure tt
  row ← lock_for_update match_id
  locked ← or_fail row (not_found "Match not found")
  lift (
      validate_propose_transition locked.status user_id locked.user1_id locked.user2_id
        locked.offered_by)
  in_group ← reads (count_merch_in_group (map merch_of items) locked.event_id locked.group_name)
  if in_group == length (distinct (map merch_of items))
      then pure tt
      else fail (bad_request "All offered items must be live merchandise in the match's group")
  check_capacities items locked.user1_id locked.user2_id
  record_proposal match_id user_id items
  pure (
      offer_received (other_participant locked.user1_id locked.user2_id user_id) user_id match_id
      ∷ [])

abbrev pub leg_of : MatchItemRow → ℕ × ℤ
leg_of i = (i.giver_user_id, i.quantity)

abbrev pub item_of : MatchItemRow → OfferItem
item_of i = record { merch_id = i.merch_id; giver_user_id = i.giver_user_id; quantity = i.quantity }

-- The gate before ACCEPTED.
unfoldable pub accept_gate : ℕ → ℕ → Snapshot → Tx (Unit {0})
unfolding check_capacities
accept_gate match_id user_id locked = do
  if user_id == proposer_or locked.offered_by locked.user1_id
      then fail (bad_request "Cannot accept your own proposal")
      else pure tt
  items ← reads (list_match_items match_id)
  if is_balanced (map leg_of items) locked.user1_id locked.user2_id
      then pure tt
      else fail (bad_request "Cannot accept an unbalanced proposal")
  check_capacities (map item_of items) locked.user1_id locked.user2_id

abbrev pub run_action : ℕ → CompleteAction → Tx (Unit {0})
run_action match_id complete_match = set_status match_id completed
run_action match_id mark_self = pure tt

-- The branch of `change_status` for COMPLETED.
unfoldable pub complete : ℕ → ℕ → Snapshot → Tx (List Notice)
complete match_id user_id locked = do
  action ← lift (validate_complete locked.status (completed_by locked user_id))
  run_action match_id action
  mark_completed match_id (user_id == locked.user1_id)
  pure []

-- The branch for ACCEPTED.
unfoldable pub accept : ℕ → ℕ → Snapshot → Tx (List Notice)
accept match_id user_id locked = do
  lift (validate_status_transition accepted locked.status)
  accept_gate match_id user_id locked
  set_status match_id accepted
  pure (
      offer_accepted (other_participant locked.user1_id locked.user2_id user_id) user_id match_id
      ∷ [])

-- The branch for REJECTED.
unfoldable pub reject : ℕ → Snapshot → Tx (List Notice)
reject match_id locked = do
  lift (validate_status_transition rejected locked.status)
  set_status match_id rejected
  delete_match_items match_id
  pure []

-- By the new status. The target check before it lets the first three through only.
unfoldable pub change_locked : Status → ℕ → ℕ → Snapshot → Tx (List Notice)
unfolding complete accept reject
change_locked completed match_id user_id locked = complete match_id user_id locked
change_locked accepted match_id user_id locked = accept match_id user_id locked
change_locked rejected match_id user_id locked = reject match_id locked
change_locked new_status match_id user_id locked = do
  lift (validate_status_transition new_status locked.status)
  set_status match_id new_status
  pure []

unfoldable pub change_status : ℕ → ℕ → Status → Tx (List Notice)
unfolding change_locked
change_status match_id user_id new_status = do
  lift (validate_transition_target new_status)
  row ← lock_for_update match_id
  locked ← or_fail row (not_found "Match not found")
  lift (validate_participation user_id locked.user1_id locked.user2_id)
  change_locked new_status match_id user_id locked

abbrev scope_id : ActiveMatchScope → ℕ
scope_id s = s.id

-- The ids of the scopes that a test picks.
unfoldable pub pick_scopes : (ActiveMatchScope → Bool) → List ActiveMatchScope → List ℕ
pick_scopes test [] = []
pick_scopes test (s ∷ ss) = if test s then s.id ∷ pick_scopes test ss else pick_scopes test ss

-- `cancel_zero_capacity_for_user`
unfoldable pub cancel_zero_capacity_for_user : ℕ → Tx ℕ
unfolding pick_scopes
cancel_zero_capacity_for_user user_id = do
  scopes ← reads (list_active_scopes_for_user user_id)
  to_cancel ← reads (λ db. pick_scopes (λ s. scope_requires_cancel s db) scopes)
  system_cancel_matches to_cancel "INVENTORY_CAPACITY"

-- The loop of `apply_inventory`; the result says whether a capacity changed.
unfoldable pub apply_items : ℕ → Bool → List MatchItemRow → Bool → Tx Bool
apply_items user_id skip_have_decrement [] changed = pure changed
apply_items user_id skip_have_decrement (i ∷ is) changed =
    let (dt, dh, dw) =
      apply_inventory_delta i.giver_user_id user_id i.quantity skip_have_decrement in
    let rest = apply_items user_id skip_have_decrement is in
    if eqb_ℤ dt (pos 0) && eqb_ℤ dh (pos 0) && eqb_ℤ dw (pos 0)
    then rest changed
    else apply_trade_delta user_id i.merch_id dt dh dw
      >> rest (changed || ltb_ℤ (pos 0) dt || ltb_ℤ dw (pos 0))

-- The guards of `apply_inventory` on the locked row.
unfoldable pub validate_apply : Snapshot → ℕ → Result (Unit {0})
validate_apply snapshot user_id =
    if not (is_completed snapshot.status)
    then err (bad_request "Can only apply inventory on COMPLETED matches")
    else if not (is_participant user_id snapshot.user1_id snapshot.user2_id)
    then err (forbidden "Not part of this match")
    else if not (completed_by snapshot user_id)
    then err (bad_request "Complete the match before applying inventory")
    else if applied_by snapshot user_id
    then err (conflict "Inventory already applied for this user")
    else ok tt

unfoldable pub apply_inventory : ℕ → ℕ → Bool → Tx (Unit {0})
apply_inventory match_id user_id skip_have_decrement = do
  row ← lock_for_update match_id
  snapshot ← or_fail row (not_found "Match not found")
  lift (validate_apply snapshot user_id)
  items ← reads (list_match_items match_id)
  capacity_changed ← apply_items user_id skip_have_decrement items false
  mark_inventory_applied match_id (user_id == snapshot.user1_id)
  count ← if capacity_changed then cancel_zero_capacity_for_user user_id else pure 0
  pure tt

-- `status == "WANT" || status == "TRADE"`
abbrev pub moves_capacity : Holding → Bool
moves_capacity want = true
moves_capacity trade = true
moves_capacity _ = false

unfoldable pub update_inventory : ℕ → ℕ → Holding → ℤ → Tx InventoryItem
update_inventory user_id merch_id status quantity = do
  item ← upsert_in_tx user_id merch_id status quantity
  count ← if moves_capacity status then cancel_zero_capacity_for_user user_id else pure 0
  pure item
