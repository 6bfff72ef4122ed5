-- ===== src/Store/Matches.antt =====
-- backend/src/repositories/match_/mod.rs and write.rs: the `matches` and `match_items` tables under
-- the match lifecycle.
pub mod Lookup
pub mod Evolve
use ymatch.Common.{
  ℕ, String, Bool, true, false, not, ◌&&◌, ◌||◌, Option, none, some, List, [], ◌∷◌, ◌++◌, ◌==◌,
  if◌then◌else◌, select, fetch, exists_row, update, delete, str_eq,
}
use ymatch.Common.Int.{ℤ, pos, ltb_ℤ, eqb_ℤ}
use ymatch.Error.{AppError}
use ymatch.Store.{Status, MerchRow, MatchRow, MatchItemRow, Db, Tx, fail, ◌>>=◌, reads, writes}

-- `MatchStatusSnapshot`
pub record Snapshot : Type 0 where
  pub user1_id : ℕ
  pub user2_id : ℕ
  pub status : Status
  pub offered_by : Option ℕ
  pub event_id : ℕ
  pub group_name : String
  pub user1_applied : Bool
  pub user2_applied : Bool
  pub user1_completed : Bool
  pub user2_completed : Bool

abbrev pub is_some {ℓ} : {A : Type ℓ} → Option A → Bool
is_some none = false
is_some (some _) = true

-- `match_status_snapshot_from_row`
abbrev pub snapshot_from_row : MatchRow → Snapshot
snapshot_from_row r = record {
  user1_id = r.user1_id;
  user2_id = r.user2_id;
  status = r.status;
  offered_by = r.offered_by;
  event_id = r.event_id;
  group_name = r.group_name;
  user1_applied = is_some r.user1_inventory_applied_at;
  user2_applied = is_some r.user2_inventory_applied_at;
  user1_completed = is_some r.user1_completed_at;
  user2_completed = is_some r.user2_completed_at;
}

unfoldable pub applied_by : Snapshot → ℕ → Bool
applied_by s user_id = if user_id == s.user1_id then s.user1_applied else s.user2_applied

unfoldable pub completed_by : Snapshot → ℕ → Bool
completed_by s user_id = if user_id == s.user1_id then s.user1_completed else s.user2_completed

abbrev pub has_id : ℕ → MatchRow → Bool
has_id match_id r = r.id == match_id

unfoldable pub find_match : ℕ → Db → Option MatchRow
find_match match_id db = fetch (has_id match_id) db.matches

-- `row.map(match_status_snapshot_from_row)`
abbrev pub snapshot_of : Option MatchRow → Option Snapshot
snapshot_of none = none
snapshot_of (some r) = some (snapshot_from_row r)

-- SELECT … FOR UPDATE. A transaction is one step here, so the lock has nothing left to do.
unfoldable pub lock_for_update : ℕ → Tx (Option Snapshot)
lock_for_update match_id = reads (λ db. snapshot_of (find_match match_id db))

-- UPDATE matches SET … WHERE id = $1
unfoldable pub update_match : ℕ → (MatchRow → MatchRow) → Db → Db
update_match match_id change db = record db { matches = update (has_id match_id) change db.matches }

unfoldable pub set_status : ℕ → Status → Tx (Unit {0})
set_status match_id new_status =
    writes (update_match match_id (λ r. record r { status = new_status }))

unfoldable pub set_offered_by : ℕ → ℕ → Tx (Unit {0})
set_offered_by match_id user_id =
    writes (update_match match_id (λ r. record r { offered_by = some user_id }))

-- `group_name = $1`, which a NULL does not satisfy.
abbrev pub in_group : Option String → String → Bool
in_group none group_name = false
in_group (some g) group_name = str_eq g group_name

-- A merchandise row that can be traded in the group.
abbrev pub is_live_in : ℕ → String → MerchRow → Bool
is_live_in event_id group_name m =
    m.event_id == event_id
    && in_group m.group_name group_name
    && not m.is_deleted
    && m.trade_enabled

-- One leg of a proposal (the proto message `OfferItem`).
pub record OfferItem : Type 0 where
  pub merch_id : ℕ
  pub giver_user_id : ℕ
  pub quantity : ℤ

-- The unique key (match_id, giver_user_id, merch_id).
abbrev pub at_leg : ℕ → ℕ → ℕ → MatchItemRow → Bool
at_leg match_id giver_user_id merch_id r =
    r.match_id == match_id && r.giver_user_id == giver_user_id && r.merch_id == merch_id

abbrev pub same_leg : OfferItem → OfferItem → Bool
same_leg a b = a.giver_user_id == b.giver_user_id && a.merch_id == b.merch_id

-- Two rows of one INSERT with the same key.
unfoldable pub repeats_leg : List OfferItem → Bool
repeats_leg [] = false
repeats_leg (i ∷ is) = exists_row (same_leg i) is || repeats_leg is

-- ON CONFLICT DO UPDATE SET quantity = EXCLUDED.quantity
unfoldable pub upsert_leg : ℕ → OfferItem → List MatchItemRow → List MatchItemRow
upsert_leg match_id i rows =
    if exists_row (at_leg match_id i.giver_user_id i.merch_id) rows
    then update (at_leg match_id i.giver_user_id i.merch_id)
        (λ r. record r { quantity = i.quantity }) rows
    else rows
      ++ record {
        match_id = match_id;
        giver_user_id = i.giver_user_id;
        merch_id = i.merch_id;
        quantity = i.quantity;
      }
        ∷ []

unfoldable pub upsert_all : ℕ → List OfferItem → List MatchItemRow → List MatchItemRow
unfolding upsert_leg
upsert_all match_id [] rows = rows
upsert_all match_id (i ∷ is) rows = upsert_all match_id is (upsert_leg match_id i rows)

abbrev pub is_positive : OfferItem → Bool
is_positive i = ltb_ℤ (pos 0) i.quantity

abbrev pub is_removal : OfferItem → Bool
is_removal i = eqb_ℤ i.quantity (pos 0)

-- One statement for all legs: Postgres refuses one that would touch a row twice (21000, which
-- becomes Internal). With no positive leg nothing happens, as in the early return.
unfoldable pub upsert_legs : ℕ → List OfferItem → Tx (Unit {0})
unfolding repeats_leg upsert_all
upsert_legs match_id items =
    if repeats_leg (select is_positive items)
    then fail (AppError.internal "ON CONFLICT DO UPDATE command cannot affect row a second time")
    else writes (λ db. record db {
      match_items = upsert_all match_id (select is_positive items) db.match_items;
    })

abbrev pub names_leg : MatchItemRow → OfferItem → Bool
names_leg r i = r.giver_user_id == i.giver_user_id && r.merch_id == i.merch_id

unfoldable pub remove_legs : ℕ → List OfferItem → Tx (Unit {0})
remove_legs match_id items = writes (λ db. record db {
  match_items =
      delete (λ r. r.match_id == match_id && exists_row (names_leg r) (select is_removal items))
        db.match_items;
})

unfoldable pub delete_match_items : ℕ → Tx (Unit {0})
delete_match_items match_id =
    writes (λ db. record db { match_items = delete (λ r. r.match_id == match_id) db.match_items })

-- `col IS NULL`, tested on the row that the conditional UPDATE would write.
abbrev pub applied_column : Bool → MatchRow → Option ℕ
applied_column is_user1 r =
    if is_user1 then r.user1_inventory_applied_at else r.user2_inventory_applied_at

abbrev pub completed_column : Bool → MatchRow → Option ℕ
completed_column is_user1 r = if is_user1 then r.user1_completed_at else r.user2_completed_at

unfoldable pub mark_inventory_applied : ℕ → Bool → Tx (Unit {0})
mark_inventory_applied match_id is_user1 = do
  unmarked ← reads (λ db.
      exists_row (λ r. has_id match_id r && not (is_some (applied_column is_user1 r))) db.matches)
  now ← reads (λ db. db.now)
  if unmarked
      then writes (
          update_match match_id (λ r.
            if is_some (applied_column is_user1 r)
            then r
            else if is_user1
            then record r { user1_inventory_applied_at = some now }
            else record r { user2_inventory_applied_at = some now }))
      else fail (AppError.conflict "Inventory already applied for this user")

unfoldable pub mark_completed : ℕ → Bool → Tx (Unit {0})
mark_completed match_id is_user1 = do
  unmarked ← reads (λ db.
      exists_row (λ r. has_id match_id r && not (is_some (completed_column is_user1 r))) db.matches)
  now ← reads (λ db. db.now)
  if unmarked
      then writes (
          update_match match_id (λ r.
            if is_some (completed_column is_user1 r)
            then r
            else if is_user1
            then record r { user1_completed_at = some now }
            else record r { user2_completed_at = some now }))
      else fail (AppError.conflict "Match already completed by this user")
