-- ===== src/Store/Capacity.antt =====
-- backend/src/repositories/match_/capacity.rs: mutual capacity (ADR 0010) and the system's cancel.
pub mod Cancel
pub mod Meaning
use ymatch.Common.{
  ℕ, String, Bool, true, ◌&&◌, ◌||◌, Option, none, some, List, [], ◌∷◌, ◌++◌, map, ◌==◌,
  if◌then◌else◌, str_eq, select, exists_row, update, total, length,
}
use ymatch.Common.Int.{ℤ, pos, leb_ℤ, ltb_ℤ, min_ℤ, to_i32}
use ymatch.Store.{
  cancelled, trade, want, MerchRow, InventoryRow, MatchRow, MatchItemRow, MessageRow, Db, Tx, pure,
  ◌>>=◌, ◌>>◌, reads, writes, is_active, holding_eq,
}
use ymatch.Store.Inventory.{any_of}
use ymatch.Store.Matches.{is_live_in}

-- `ActiveMatchScope`
pub record ActiveMatchScope : Type 0 where
  pub id : ℕ
  pub user1_id : ℕ
  pub user2_id : ℕ
  pub event_id : ℕ
  pub group_name : String

unfoldable pub scope_of : MatchRow → ActiveMatchScope
scope_of r = record {
  id = r.id;
  user1_id = r.user1_id;
  user2_id = r.user2_id;
  event_id = r.event_id;
  group_name = r.group_name;
}

unfoldable pub list_active_scopes_for_user : ℕ → Db → List ActiveMatchScope
unfolding scope_of
list_active_scopes_for_user user_id db = map scope_of (
    select (λ r. (r.user1_id == user_id || r.user2_id == user_id) && is_active r.status) db.matches)

unfoldable pub list_active_scopes_for_group : ℕ → String → Db → List ActiveMatchScope
unfolding scope_of
list_active_scopes_for_group event_id group_name db = map scope_of (
    select (λ r. r.event_id == event_id && str_eq r.group_name group_name && is_active r.status)
      db.matches)

abbrev match_id_of : MatchRow → ℕ
match_id_of r = r.id

unfoldable pub list_active_ids_referencing_merch : ℕ → Db → List ℕ
list_active_ids_referencing_merch merch_id db = map match_id_of (
    select
      (λ r.
        is_active r.status
        && exists_row (λ (i : MatchItemRow). i.match_id == r.id && i.merch_id == merch_id)
            db.match_items)
      db.matches)

-- The WANT rows that the receiver holds of a TRADE row's item, each with its LEAST.
abbrev pub wanted_part : ℕ → InventoryRow → InventoryRow → ℤ
wanted_part receiver_user_id t w =
    if w.merch_id == t.merch_id
      && w.user_id == receiver_user_id
      && holding_eq w.status want
      && ltb_ℤ (pos 0) w.quantity
    then min_ℤ t.quantity w.quantity
    else pos 0

abbrev pub traded_part : ℕ → ℕ → ℕ → String → Db → InventoryRow → ℤ
traded_part giver_user_id receiver_user_id event_id group_name db t =
    if t.user_id == giver_user_id
      && holding_eq t.status trade
      && ltb_ℤ (pos 0) t.quantity
      && exists_row (λ (m : MerchRow). m.id == t.merch_id && is_live_in event_id group_name m)
          db.merchandise
    then total (wanted_part receiver_user_id t) db.inventory
    else pos 0

-- The bigint that the query returns.
unfoldable pub capacity_sum : ℕ → ℕ → ℕ → String → Db → ℤ
capacity_sum giver_user_id receiver_user_id event_id group_name db =
    total (traded_part giver_user_id receiver_user_id event_id group_name db) db.inventory

-- `mutual_capacity`, with its `cap as i32`.
unfoldable pub mutual_capacity : ℕ → ℕ → ℕ → String → Db → ℤ
mutual_capacity giver_user_id receiver_user_id event_id group_name db =
    to_i32 (capacity_sum giver_user_id receiver_user_id event_id group_name db)

unfoldable pub capacity_requires_cancel : ℤ → ℤ → Bool
capacity_requires_cancel cap1 cap2 = leb_ℤ cap1 (pos 0) || leb_ℤ cap2 (pos 0)

unfoldable pub scope_requires_cancel : ActiveMatchScope → Db → Bool
scope_requires_cancel s db =
    capacity_requires_cancel (mutual_capacity s.user1_id s.user2_id s.event_id s.group_name db)
      (mutual_capacity s.user2_id s.user1_id s.event_id s.group_name db)

abbrev pub is_cancelled_by : List ℕ → MatchRow → Bool
is_cancelled_by match_ids r = any_of r.id match_ids && is_active r.status

abbrev pub system_message : String → ℕ → MatchRow → MessageRow
system_message reason now r = record {
  match_id = r.id;
  sender_id = r.user1_id;
  content = reason;
  message_type = "SYSTEM";
  created_at = now;
}

-- `system_cancel_matches`, which returns how many it cancelled. An empty list cancels none.
unfoldable pub system_cancel_matches : List ℕ → String → Tx ℕ
system_cancel_matches match_ids reason = do
  cancelled_rows ← reads (λ db. select (is_cancelled_by match_ids) db.matches)
  writes (λ db. record db {
    matches = update (is_cancelled_by match_ids) (λ r. record r { status = cancelled }) db.matches;
    messages = db.messages ++ map (system_message reason db.now) cancelled_rows;
  })
  pure (length cancelled_rows)

-- The loop that collects ids: those of the scopes that the test picks and that are not yet in.
unfoldable pub collect_scopes : (ActiveMatchScope → Bool) → List ℕ → List ActiveMatchScope → List ℕ
collect_scopes test ids [] = ids
collect_scopes test ids (s ∷ ss) =
    collect_scopes test (if any_of s.id ids then ids else if test s then ids ++ s.id ∷ [] else ids)
      ss

abbrev pub group_scopes : ℕ → Option String → Db → List ActiveMatchScope
group_scopes event_id none db = []
group_scopes event_id (some group_name) db = list_active_scopes_for_group event_id group_name db

-- `cancel_after_merch_delete`
unfoldable pub cancel_after_merch_delete : ℕ → ℕ → Option String → String → Tx (Unit {0})
unfolding system_cancel_matches collect_scopes
cancel_after_merch_delete merch_id event_id group_name reason = do
  ids ← reads (list_active_ids_referencing_merch merch_id)
  scopes ← reads (group_scopes event_id group_name)
  list ← reads (λ db. collect_scopes (λ s. scope_requires_cancel s db) ids scopes)
  count ← system_cancel_matches list reason
  pure tt
