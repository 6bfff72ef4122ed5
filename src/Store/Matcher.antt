-- ===== src/Store/Matcher.antt =====
-- backend/src/repositories/match_/matcher.rs: the scan steps of the periodic matcher, its insert and
-- its reopening of a terminal match (ADR 0012).
use ymatch.Common.{
  ℕ, suc, ◌+◌, String, Bool, true, false, not, ◌&&◌, ◌||◌, Option, none, some, List, [], ◌∷◌, ◌++◌,
  map, ◌==◌, leb, if◌then◌else◌, str_eq, select, fetch, exists_row,
}
use ymatch.Common.Int.{pos, ltb_ℤ}
use ymatch.Error.{AppError, unique_violation, constraint_violation}
use ymatch.Store.{
  Status, pending, trade, want, UserRow, MerchRow, InventoryRow, MatchRow, MatchItemRow, Db, Tx,
  pure, fail, ◌>>=◌, ◌>>◌, reads, writes, is_locking, is_reopenable, holding_eq,
}
use ymatch.Store.Matches.{find_match, update_match, delete_match_items, is_live_in}

-- `MatchableWant`
pub record MatchableWant : Type 0 where
  pub user_id : ℕ
  pub merch_id : ℕ
  pub event_id : ℕ
  pub group_name : String

-- NOT EXISTS (…): the item stands in a leg of an OFFERED or ACCEPTED match of the user.
unfoldable pub is_locked_for : ℕ → ℕ → Db → Bool
is_locked_for user_id merch_id db =
    exists_row
      (λ (i : MatchItemRow).
        i.merch_id == merch_id
        && exists_row
            (λ (r : MatchRow).
              r.id == i.match_id
              && is_locking r.status
              && (r.user1_id == user_id || r.user2_id == user_id))
            db.matches)
      db.match_items

-- JOIN users … WHERE u.is_banned = false
abbrev pub is_unbanned : Db → ℕ → Bool
is_unbanned db user_id = exists_row (λ (u : UserRow). u.id == user_id && not u.is_banned) db.users

abbrev pub is_tradeable : MerchRow → Bool
is_tradeable m = not m.is_deleted && m.trade_enabled

-- ORDER BY updated_at ASC, by stable insertion.
unfoldable pub insert_by_age : InventoryRow → List InventoryRow → List InventoryRow
insert_by_age r [] = r ∷ []
insert_by_age r (x ∷ xs) =
    if leb r.updated_at x.updated_at then r ∷ x ∷ xs else x ∷ insert_by_age r xs

unfoldable pub order_by_age : List InventoryRow → List InventoryRow
unfolding insert_by_age
order_by_age [] = []
order_by_age (r ∷ rs) = insert_by_age r (order_by_age rs)

-- The WHERE of step 1 on the inventory row alone.
unfoldable pub is_open_want : Db → InventoryRow → Bool
is_open_want db i =
    holding_eq i.status want
    && ltb_ℤ (pos 0) i.quantity
    && is_unbanned db i.user_id
    && not (is_locked_for i.user_id i.merch_id db)

-- `group_name IS NOT NULL AND group_name <> ''`
unfoldable pub matchable_group : Option String → Option String
matchable_group none = none
matchable_group (some g) = if str_eq g "" then none else some g

-- The row of the join with the item, if the item passes the filter.
abbrev pub wanted_merch : InventoryRow → MerchRow → List MatchableWant
wanted_merch i m = elim (matchable_group m.group_name) [
  | none ↦ []
  | some g ↦
      if is_tradeable m
      then record {
        user_id = i.user_id;
        merch_id = i.merch_id;
        event_id = m.event_id;
        group_name = g;
      }
        ∷ []
      else []
]

abbrev pub wanted_of : InventoryRow → Option MerchRow → List MatchableWant
wanted_of i none = []
wanted_of i (some m) = wanted_merch i m

unfoldable pub join_want : Db → InventoryRow → List MatchableWant
join_want db i = wanted_of i (fetch (λ (m : MerchRow). m.id == i.merch_id) db.merchandise)

unfoldable pub join_wants : Db → List InventoryRow → List MatchableWant
unfolding join_want
join_wants db [] = []
join_wants db (i ∷ is) = join_want db i ++ join_wants db is

-- Step 1.
unfoldable pub list_matchable_wants : Db → List MatchableWant
unfolding is_open_want order_by_age join_wants
list_matchable_wants db = join_wants db (order_by_age (select (is_open_want db) db.inventory))

abbrev holder : InventoryRow → ℕ
holder i = i.user_id

abbrev held_merch : InventoryRow → ℕ
held_merch i = i.merch_id

abbrev pub offers_merch : ℕ → ℕ → Db → InventoryRow → Bool
offers_merch merch_id exclude_user_id db i =
    i.merch_id == merch_id
    && holding_eq i.status trade
    && not (i.user_id == exclude_user_id)
    && ltb_ℤ (pos 0) i.quantity
    && exists_row (λ (m : MerchRow). m.id == i.merch_id && is_tradeable m) db.merchandise
    && is_unbanned db i.user_id
    && not (is_locked_for i.user_id i.merch_id db)

-- Step 2. Without ORDER BY the rows come in the order of the table.
unfoldable pub list_users_trading_merch : ℕ → ℕ → Db → List ℕ
list_users_trading_merch merch_id exclude_user_id db =
    map holder (select (offers_merch merch_id exclude_user_id db) db.inventory)

abbrev pub trades_in_group : ℕ → ℕ → String → Db → InventoryRow → Bool
trades_in_group user_id event_id group_name db i =
    i.user_id == user_id
    && holding_eq i.status trade
    && ltb_ℤ (pos 0) i.quantity
    && exists_row (λ (m : MerchRow). m.id == i.merch_id && is_live_in event_id group_name m)
        db.merchandise

-- Step 3.
unfoldable pub list_user_trade_merch_ids_in_group : ℕ → ℕ → String → Db → List ℕ
list_user_trade_merch_ids_in_group user_id event_id group_name db =
    map held_merch (select (trades_in_group user_id event_id group_name db) db.inventory)

-- Step 4.
unfoldable pub user_wants_live_merch : ℕ → ℕ → Db → Bool
user_wants_live_merch user_id merch_id db =
    exists_row
      (λ i.
        i.user_id == user_id
        && i.merch_id == merch_id
        && holding_eq i.status want
        && ltb_ℤ (pos 0) i.quantity
        && exists_row (λ (m : MerchRow). m.id == i.merch_id && is_tradeable m) db.merchandise)
      db.inventory

-- A match of the pair, in either order, in the group.
abbrev pub of_pair_group : ℕ → ℕ → ℕ → String → MatchRow → Bool
of_pair_group user_a user_b event_id group_name r =
    r.event_id == event_id
    && str_eq r.group_name group_name
    && ((r.user1_id == user_a && r.user2_id == user_b)
        || (r.user1_id == user_b && r.user2_id == user_a))

-- Step 5a.
unfoldable pub find_for_pair_group : ℕ → ℕ → ℕ → String → Db → Option MatchRow
find_for_pair_group user_a user_b event_id group_name db =
    fetch (of_pair_group user_a user_b event_id group_name) db.matches

unfoldable pub new_match : ℕ → ℕ → ℕ → String → Db → MatchRow
new_match user1_id user2_id event_id group_name db = record {
  id = db.next_match_id;
  user1_id = user1_id;
  user2_id = user2_id;
  status = pending;
  offered_by = none;
  event_id = event_id;
  group_name = group_name;
  user1_inventory_applied_at = none;
  user2_inventory_applied_at = none;
  user1_completed_at = none;
  user2_completed_at = none;
  user1_messages_read_at = none;
  user2_messages_read_at = none;
  created_at = db.now;
  rematch_count = 0;
  last_terminal_status = none;
  last_terminal_at = none;
}

abbrev pub is_user : List UserRow → ℕ → Bool
is_user users user_id = exists_row (λ (u : UserRow). u.id == user_id) users

abbrev pub is_event : List ℕ → ℕ → Bool
is_event event_ids event_id = exists_row (λ (e : ℕ). e == event_id) event_ids

-- The foreign keys of `matches`.
abbrev pub refers : ℕ → ℕ → ℕ → Db → Bool
refers user1_id user2_id event_id db =
    is_user db.users user1_id && is_user db.users user2_id && is_event db.event_ids event_id

-- Step 5b. `idx_matches_unique_pair_group` refuses a second row of the pair and group, and the foreign keys
-- refuse a row of a user or an event that is not there.
unfoldable pub insert_pending : ℕ → ℕ → ℕ → String → Tx (Unit {0})
unfolding new_match
insert_pending user1_id user2_id event_id group_name = do
  taken ← reads (λ db. exists_row (of_pair_group user1_id user2_id event_id group_name) db.matches)
  known ← reads (refers user1_id user2_id event_id)
  if taken
      then fail unique_violation
      else if known
      then writes (λ db. record db {
        matches = db.matches ++ new_match user1_id user2_id event_id group_name db ∷ [];
        next_match_id = suc db.next_match_id;
      })
      else fail constraint_violation

-- `rematch_count + 1` fits the INTEGER of the column.
abbrev pub has_room : MatchRow → Bool
has_room r = leb (r.rematch_count + 1) 2147483647

unfoldable pub reopened_row : Status → ℕ → MatchRow → MatchRow
reopened_row prior_status now r = record r {
  status = pending;
  offered_by = none;
  rematch_count = r.rematch_count + 1;
  last_terminal_status = some prior_status;
  last_terminal_at = some now;
}

unfoldable pub reopen_row : ℕ → Status → String → MatchRow → Tx Bool
unfolding reopened_row update_match delete_match_items
reopen_row match_id prior_status reason r = do
  writes (λ db. update_match match_id (reopened_row prior_status db.now) db)
  delete_match_items match_id
  writes (λ db. record db {
    messages =
        db.messages
        ++ record {
          match_id = match_id;
          sender_id = r.user1_id;
          content = reason;
          message_type = "SYSTEM";
          created_at = db.now;
        }
          ∷ [];
  })
  pure true

-- Step 5c. A count that would not fit is 22003, which becomes Internal.
unfoldable pub reopen_terminal : ℕ → Status → String → Tx Bool
unfolding find_match reopen_row
reopen_terminal match_id prior_status reason = do
  row ← reads (find_match match_id)
  elim row [
    | none ↦ pure false
    | some r ↦
        if not (is_reopenable r.status)
        then pure false
        else if has_room r
        then reopen_row match_id prior_status reason r
        else fail (AppError.internal "integer out of range")
  ]
