-- ===== src/Runs.antt =====
-- Runs of the trading engine: any sequence of calls by any users, passes of the matcher and cascades of
-- deletions, interleaved in any order. A call that fails leaves the state as it was, so only the
-- calls that succeed are steps. The removal of a match or of a group by an admin, which deletes rows of matches, is
-- no step (`remove_for_admin` and `delete_match` are in Groups).
pub mod Keys
pub mod Safety
pub mod Once
use ymatch.Common.{
  ℕ, zero, suc, ◌+◌, ◌-◌, ◌≤◌, ◌<◌, String, ◌≡◌, refl, sym, ap, ◌∙◌, ◌≢◌, ◌↔◌, ◌⊎◌, inl, inr, Bool,
  true, false, not, ◌&&◌, ◌||◌, Option, none, some, List, [], ◌∷◌, ◌++◌, map, arith, ◌==◌,
  if◌then◌else◌, Bool-cases, Option-cases, select, fetch, exists_row, update, delete, All,
}
use ymatch.Common.Int.{ℤ}
use ymatch.Error.{ok}
use ymatch.Store.{Status, Holding, Db}
use ymatch.Store.Inventory.{InventoryItem}
use ymatch.Store.Matches.{OfferItem}
use ymatch.Store.Capacity.{cancel_after_merch_delete}
use ymatch.Lifecycle.{Notice, offer, change_status, apply_inventory, update_inventory}
use ymatch.Matching.{run_matching_algorithm}

pub data Step (db db' : Db) : Type 0 where
  offers :
      (match_id user_id : ℕ) (items : List OfferItem) (ns : List Notice)
      → offer match_id user_id items db ≡ ok (ns, db')
      → Step db db'
  changes :
      (match_id user_id : ℕ) (s : Status) (ns : List Notice)
      → change_status match_id user_id s db ≡ ok (ns, db')
      → Step db db'
  applies :
      (match_id user_id : ℕ) (skip : Bool) (u : Unit {0})
      → apply_inventory match_id user_id skip db ≡ ok (u, db')
      → Step db db'
  updates :
      (user_id merch_id : ℕ) (status : Holding) (quantity : ℤ) (item : InventoryItem)
      → update_inventory user_id merch_id status quantity db ≡ ok (item, db')
      → Step db db'
  pairs : (n : ℕ) → run_matching_algorithm db ≡ ok (n, db') → Step db db'
  cascades :
      (merch_id event_id : ℕ) (group_name : Option String) (reason : String) (u : Unit {0})
      → cancel_after_merch_delete merch_id event_id group_name reason db ≡ ok (u, db')
      → Step db db'
  ticks : (now : ℕ) → db' ≡ record db { now = now } → Step db db'

pub data Run (db : Db) : Db → Type 0 where
  here : Run db db
  next : {a b : Db} → Run db a → Step a b → Run db b
