-- ===== src/Examples.antt =====
-- A small state of the system, and runs on it.
pub mod Trading
pub mod Selling
pub mod Pushing
pub mod Directory
pub mod Showing
pub mod Running
pub mod Projecting
pub mod Chatting
pub mod Owners
pub mod Requests
pub mod Roles
pub mod Members
use ymatch.Common.{
  ℕ, zero, suc, ◌+◌, ◌-◌, ◌≤◌, ◌<◌, String, ◌≡◌, refl, sym, ap, ◌∙◌, ◌≢◌, ◌↔◌, ◌⊎◌, inl, inr, Bool,
  true, false, not, ◌&&◌, ◌||◌, Option, none, some, List, [], ◌∷◌, ◌++◌, map, arith, ◌==◌,
  if◌then◌else◌, Bool-cases, Option-cases, select, fetch, exists_row, update, delete, All,
}
use ymatch.Common.Int.{ℤ, pos}
use ymatch.Store.{
  UserRow, MerchRow, InventoryRow, MatchRow, MatchItemRow, Db, Status, offered, accepted, Holding,
  trade, want, have,
}

abbrev pub user : ℕ → UserRow
user n = record { id = n; username = "u"; is_banned = false; banned_until = none }

abbrev pub merch : ℕ → MerchRow
merch n = record {
  id = n;
  event_id = 5;
  group_name = some "A";
  name = "m";
  photo_url = none;
  status = "published";
  is_deleted = false;
  trade_enabled = true;
  creator_id = some 1;
}

abbrev pub stocked : ℕ → ℕ → ℕ → Holding → ℕ → InventoryRow
stocked n u m status q = record {
  id = n;
  user_id = u;
  merch_id = m;
  status = status;
  quantity = pos q;
  updated_at = n;
}

abbrev pub match_at : Status → MatchRow
match_at s = record {
  id = 7;
  user1_id = 1;
  user2_id = 2;
  status = s;
  offered_by = some 1;
  event_id = 5;
  group_name = "A";
  user1_inventory_applied_at = none;
  user2_inventory_applied_at = none;
  user1_completed_at = none;
  user2_completed_at = none;
  user1_messages_read_at = none;
  user2_messages_read_at = none;
  created_at = 3;
  rematch_count = 0;
  last_terminal_status = none;
  last_terminal_at = none;
}

abbrev pub leg : ℕ → ℕ → ℕ → MatchItemRow
leg g m q = record { match_id = 7; giver_user_id = g; merch_id = m; quantity = pos q }

-- User 1 trades item 10 and wants item 11, user 2 the other way round.
abbrev pub stock_rows : List InventoryRow
stock_rows =
    stocked 1 1 10 trade 2
    ∷ stocked 2 1 11 want 1
    ∷ stocked 3 2 11 trade 1
    ∷ stocked 4 2 10 want 3
    ∷ []

abbrev pub db_at : Status → Db
db_at s = record {
  users = user 1 ∷ user 2 ∷ [];
  event_ids = 5 ∷ [];
  merchandise = merch 10 ∷ merch 11 ∷ [];
  inventory = stock_rows;
  matches = match_at s ∷ [];
  match_items = leg 1 10 1 ∷ leg 2 11 1 ∷ [];
  messages = [];
  now = 100;
  next_match_id = 8;
  next_inventory_id = 5;
  next_merch_id = 12;
}

abbrev pub no_matches : Db
no_matches = record (db_at offered) { matches = []; match_items = [] }
