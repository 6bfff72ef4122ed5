-- ===== src/Store/Read.antt =====
-- backend/src/repositories/match_/read.rs and write.rs: the reads that the match lifecycle makes.
use ymatch.Common.{
  ℕ, String, Bool, not, ◌&&◌, ◌||◌, Option, none, some, List, [], ◌∷◌, ◌++◌, ◌==◌, if◌then◌else◌,
  select, fetch, exists_row, length, leb,
}
use ymatch.Common.Int.{ℤ}
use ymatch.Store.{
  Status, accepted, offered, completed, MerchRow, MatchRow, MatchItemRow, Db, is_locking,
}
use ymatch.Store.Inventory.{any_of}
use ymatch.Store.Matches.{find_match, is_live_in, is_some}

-- `count_merch_in_group`
unfoldable pub count_merch_in_group : List ℕ → ℕ → String → Db → ℕ
unfolding any_of
count_merch_in_group merch_ids event_id group_name db =
    length (select (λ m. any_of m.id merch_ids && is_live_in event_id group_name m) db.merchandise)

-- Stable insertion by giver: rows of one giver stay in the order of their ids.
unfoldable pub insert_by_giver : MatchItemRow → List MatchItemRow → List MatchItemRow
insert_by_giver r [] = r ∷ []
insert_by_giver r (x ∷ xs) =
    if leb r.giver_user_id x.giver_user_id then r ∷ x ∷ xs else x ∷ insert_by_giver r xs

unfoldable pub order_by_giver : List MatchItemRow → List MatchItemRow
unfolding insert_by_giver
order_by_giver [] = []
order_by_giver (r ∷ rs) = insert_by_giver r (order_by_giver rs)

-- The inner join with `merchandise`.
abbrev pub has_merch : Db → ℕ → Bool
has_merch db merch_id = exists_row (λ (m : MerchRow). m.id == merch_id) db.merchandise

-- `list_match_items_in_tx`; the columns for display are left out.
unfoldable pub list_match_items : ℕ → Db → List MatchItemRow
unfolding order_by_giver
list_match_items match_id db =
    order_by_giver (select (λ r. r.match_id == match_id && has_merch db r.merch_id) db.match_items)

-- `InventoryProjectionRow`
pub record InventoryProjectionRow : Type 0 where
  pub match_id : ℕ
  pub merch_id : ℕ
  pub giver_user_id : ℕ
  pub quantity : ℤ
  pub merch_name : Option String
  pub photo_url : Option String
  pub group_name : Option String
  pub is_deleted : Bool

-- The status filter of `list_inventory_projection_legs`.
unfoldable pub is_projected : ℕ → MatchRow → Bool
is_projected user_id r =
    (r.user1_id == user_id || r.user2_id == user_id)
    && (is_locking r.status
        || (ymatch.Store.is_completed r.status
            && ((r.user1_id == user_id && not (is_some r.user1_inventory_applied_at))
                || (r.user2_id == user_id && not (is_some r.user2_inventory_applied_at)))))

unfoldable pub projected_row : MatchItemRow → MerchRow → InventoryProjectionRow
projected_row i m = record {
  match_id = i.match_id;
  merch_id = i.merch_id;
  giver_user_id = i.giver_user_id;
  quantity = i.quantity;
  merch_name = some m.name;
  photo_url = m.photo_url;
  group_name = m.group_name;
  is_deleted = m.is_deleted;
}

-- The joins go by primary keys, so each leg gives one row at most.
unfoldable pub project_row : ℕ → Db → MatchItemRow → List InventoryProjectionRow
unfolding is_projected projected_row find_match
project_row user_id db i = elim (fetch (λ (m : MerchRow). m.id == i.merch_id) db.merchandise) [
  | none ↦ []
  | some m ↦
      if exists_row (λ (r : MatchRow). r.id == i.match_id && is_projected user_id r) db.matches
      then projected_row i m ∷ []
      else []
]

unfoldable pub project_rows : ℕ → Db → List MatchItemRow → List InventoryProjectionRow
unfolding project_row
project_rows user_id db [] = []
project_rows user_id db (i ∷ is) = project_row user_id db i ++ project_rows user_id db is

unfoldable pub list_inventory_projection_legs : ℕ → Db → List InventoryProjectionRow
unfolding project_rows
list_inventory_projection_legs user_id db = project_rows user_id db db.match_items
