-- ===== src/Store.antt =====
-- The tables that the trading engine reads and writes (backend/migrations, after the last one), and
-- the transactions over them. A status column is a data type of the texts that its CHECK allows,
-- with `other` for any other text that a caller may pass in.
pub mod Inventory
pub mod Steps
pub mod Matches
pub mod Read
pub mod Capacity
pub mod Matcher
pub mod Messages
use ymatch.Common.{ℕ, String, Bool, true, false, Option, none, some, List, str_eq, if◌then◌else◌}
use ymatch.Common.Int.{ℤ}
use ymatch.Error.{AppError, Result, ok, err}

-- `matches.status`
pub data Status : Type 0 where
  pending offered accepted completed rejected cancelled : Status
  other : String → Status

-- `inventory.status`
pub data Holding : Type 0 where
  have want trade : Holding
  other : String → Holding

pub record UserRow : Type 0 where
  pub id : ℕ
  pub username : String
  pub is_banned : Bool
  pub banned_until : Option ℕ

pub record MerchRow : Type 0 where
  pub id : ℕ
  pub event_id : ℕ
  pub group_name : Option String
  pub name : String
  pub photo_url : Option String
  pub status : String
  pub is_deleted : Bool
  pub trade_enabled : Bool
  pub creator_id : Option ℕ

pub record InventoryRow : Type 0 where
  pub id : ℕ
  pub user_id : ℕ
  pub merch_id : ℕ
  pub status : Holding
  pub quantity : ℤ
  pub updated_at : ℕ

pub record MatchRow : Type 0 where
  pub id : ℕ
  pub user1_id : ℕ
  pub user2_id : ℕ
  pub status : Status
  pub offered_by : Option ℕ
  pub event_id : ℕ
  pub group_name : String
  pub user1_inventory_applied_at : Option ℕ
  pub user2_inventory_applied_at : Option ℕ
  pub user1_completed_at : Option ℕ
  pub user2_completed_at : Option ℕ
  pub user1_messages_read_at : Option ℕ
  pub user2_messages_read_at : Option ℕ
  pub created_at : ℕ
  pub rematch_count : ℕ
  pub last_terminal_status : Option Status
  pub last_terminal_at : Option ℕ

-- `match_items`, in the order of their ids.
pub record MatchItemRow : Type 0 where
  pub match_id : ℕ
  pub giver_user_id : ℕ
  pub merch_id : ℕ
  pub quantity : ℤ

pub record MessageRow : Type 0 where
  pub match_id : ℕ
  pub sender_id : ℕ
  pub content : String
  pub message_type : String
  pub created_at : ℕ

-- `now` is what NOW() returns; the ids are the next values of the sequences. Of the table `events` only the ids
-- are kept here, for the foreign keys to it.
pub record Db : Type 0 where
  pub users : List UserRow
  pub event_ids : List ℕ
  pub merchandise : List MerchRow
  pub inventory : List InventoryRow
  pub matches : List MatchRow
  pub match_items : List MatchItemRow
  pub messages : List MessageRow
  pub now : ℕ
  pub next_match_id : ℕ
  pub next_inventory_id : ℕ
  pub next_merch_id : ℕ

-- `status IN ('PENDING', 'OFFERED', 'ACCEPTED')`
abbrev pub is_active : Status → Bool
is_active pending = true
is_active offered = true
is_active accepted = true
is_active _ = false

-- `status IN ('OFFERED', 'ACCEPTED')`
abbrev pub is_locking : Status → Bool
is_locking offered = true
is_locking accepted = true
is_locking _ = false

-- `status IN ('REJECTED', 'CANCELLED')`
abbrev pub is_reopenable : Status → Bool
is_reopenable rejected = true
is_reopenable cancelled = true
is_reopenable _ = false

abbrev pub is_completed : Status → Bool
is_completed completed = true
is_completed _ = false

abbrev pub holding_eq : Holding → Holding → Bool
holding_eq have have = true
holding_eq want want = true
holding_eq trade trade = true
holding_eq (Holding.other s) (Holding.other t) = str_eq s t
holding_eq _ _ = false

-- The CHECK of `inventory.status`.
abbrev pub is_holding : Holding → Bool
is_holding (Holding.other _) = false
is_holding _ = true

-- A transaction, or a statement in one. A transaction that returns an error is dropped before its
-- commit, so its writes are rolled back: the error carries no state.
abbrev pub Tx : Type 0 → Type 0
Tx A = Db → Result (A × Db)

abbrev pub pure : {A : Type 0} → A → Tx A
pure a db = ok (a, db)

abbrev pub fail : {A : Type 0} → AppError → Tx A
fail e db = err e

abbrev pub bind_result : {A B : Type 0} → Result (A × Db) → (A → Tx B) → Result (B × Db)
bind_result (ok (a, db)) f = f a db
bind_result (err e) f = err e

infixl 5 ◌>>=◌ ◌>>◌
abbrev pub ◌>>=◌ : {A B : Type 0} → Tx A → (A → Tx B) → Tx B
◌>>=◌ m f db = bind_result (m db) f

abbrev pub ◌>>◌ : {B : Type 0} → Tx (Unit {0}) → Tx B → Tx B
m >> k = m >>= λ _. k

abbrev pub lift : {A : Type 0} → Result A → Tx A
lift r db = elim r [ ok a ↦ ok (a, db) | err e ↦ err e ]

abbrev pub reads : {A : Type 0} → (Db → A) → Tx A
reads f db = ok (f db, db)

abbrev pub writes : (Db → Db) → Tx (Unit {0})
writes f db = ok (tt, f db)

-- `.ok_or_else(…)?`
abbrev pub or_fail : {A : Type 0} → Option A → AppError → Tx A
or_fail none e = fail e
or_fail (some a) e = pure a

-- The committed state after a transaction.
abbrev pub after : {A : Type 0} → Db → Result (A × Db) → Db
after db (ok (_, db')) = db'
after db (err _) = db
