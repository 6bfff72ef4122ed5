-- ===== src/Store/Inventory.antt =====
-- backend/src/repositories/inventory.rs: the `inventory` table.
use ymatch.Common.{
  ℕ, suc, String, Bool, false, ◌&&◌, ◌||◌, Option, none, some, List, [], ◌∷◌, ◌++◌, ◌==◌,
  if◌then◌else◌, select, fetch, exists_row, update,
}
use ymatch.Common.Int.{ℤ, pos, ◌+ℤ◌, ◌-ℤ◌, leb_ℤ, ltb_ℤ, max_ℤ, in_i32}
use ymatch.Error.{AppError, constraint_violation}
use ymatch.Store.{
  Holding, have, want, trade, UserRow, MerchRow, InventoryRow, Db, Tx, pure, fail, ◌>>=◌, ◌>>◌,
  reads, writes, holding_eq, is_holding,
}

-- The proto message that the inventory endpoints return.
pub record InventoryItem : Type 0 where
  pub id : ℕ
  pub user_id : ℕ
  pub merch_id : ℕ
  pub status : Holding
  pub quantity : ℤ
  pub merch_name : Option String
  pub photo_url : Option String
  pub group_name : Option String
  pub is_deleted : Option Bool
  pub projected_quantity : Option ℤ

-- The unique key (user_id, merch_id, status).
abbrev pub at_key : ℕ → ℕ → Holding → InventoryRow → Bool
at_key user_id merch_id status r =
    r.user_id == user_id && r.merch_id == merch_id && holding_eq r.status status

-- Both foreign keys and the CHECK of a new row.
unfoldable pub row_is_allowed : ℕ → ℕ → Holding → Db → Bool
row_is_allowed user_id merch_id status db =
    is_holding status
    && exists_row (λ (u : UserRow). u.id == user_id) db.users
    && exists_row (λ (m : MerchRow). m.id == merch_id) db.merchandise

-- INSERT … ON CONFLICT (user_id, merch_id, status) DO UPDATE: `change` is the SET clause.
unfoldable pub insert_or_update : ℕ → ℕ → Holding → ℤ → (InventoryRow → InventoryRow) → Db → Db
insert_or_update user_id merch_id status quantity change db =
    if exists_row (at_key user_id merch_id status) db.inventory
    then record db { inventory = update (at_key user_id merch_id status) change db.inventory }
    else record db {
      inventory =
          db.inventory
          ++ record {
            id = db.next_inventory_id;
            user_id = user_id;
            merch_id = merch_id;
            status = status;
            quantity = quantity;
            updated_at = db.now;
          }
            ∷ [];
      next_inventory_id = suc db.next_inventory_id;
    }

-- The row that RETURNING reads.
unfoldable pub returned : ℕ → ℕ → Holding → ℤ → Db → InventoryItem
returned user_id merch_id status quantity db =
    let none_text : Option String = none in
    record {
      id = elim (fetch (at_key user_id merch_id status) db.inventory) [ none ↦ 0 | some r ↦ r.id ];
      user_id = user_id;
      merch_id = merch_id;
      status = status;
      quantity = quantity;
      merch_name = some "";
      photo_url = none_text;
      group_name = none_text;
      is_deleted = none;
      projected_quantity = none;
    }

-- `upsert_in_tx`; `upsert` is the same statement on the pool.
unfoldable pub upsert_in_tx : ℕ → ℕ → Holding → ℤ → Tx InventoryItem
unfolding row_is_allowed insert_or_update returned
upsert_in_tx user_id merch_id status quantity = do
  allowed ← reads (row_is_allowed user_id merch_id status)
  if allowed
      then writes (λ db.
        insert_or_update user_id merch_id status quantity
          (λ r. record r { quantity = quantity; updated_at = db.now }) db)
      else fail constraint_violation
  reads (returned user_id merch_id status quantity)

-- `COALESCE((SELECT quantity …), 0)` at a key.
unfoldable pub stock : Db → ℕ → ℕ → Holding → ℤ
stock db user_id merch_id status = elim (fetch (at_key user_id merch_id status) db.inventory) [
  | none ↦ pos 0
  | some r ↦ r.quantity
]

-- `quantity = quantity - $1` and the like at a key.
abbrev set_quantity : ℕ → ℕ → Holding → (ℤ → ℤ) → Db → Db
set_quantity user_id merch_id status f db = record db {
  inventory =
      update (at_key user_id merch_id status) (λ r. record r { quantity = f r.quantity })
        db.inventory;
}

-- An UPDATE of the row at a key, if there is one. Postgres refuses a result outside the column's
-- range (22003, which `From<sqlx::Error>` makes Internal).
unfoldable pub adjust : ℕ → ℕ → Holding → (ℤ → ℤ) → Tx (Unit {0})
adjust user_id merch_id status f db = elim (fetch (at_key user_id merch_id status) db.inventory) [
  | none ↦ pure tt db
  | some r ↦
      if in_i32 (f r.quantity)
      then writes (set_quantity user_id merch_id status f) db
      else fail (AppError.internal "integer out of range") db
]

-- INSERT … ON CONFLICT DO UPDATE SET quantity = inventory.quantity + $4
unfoldable pub have_inc : ℕ → ℕ → ℤ → Tx (Unit {0})
unfolding adjust row_is_allowed insert_or_update
have_inc user_id merch_id delta = do
  present ← reads (λ db. exists_row (at_key user_id merch_id have) db.inventory)
  allowed ← reads (row_is_allowed user_id merch_id have)
  if present
      then adjust user_id merch_id have (λ q. q +ℤ delta)
      else if allowed
      then writes (insert_or_update user_id merch_id have delta (λ r. r))
      else fail constraint_violation

-- The gate and the four writes of the CTE. They touch the rows at three keys, so the order in which
-- they run does not matter.
unfoldable pub apply_trade_delta : ℕ → ℕ → ℤ → ℤ → ℤ → Tx (Unit {0})
unfolding stock adjust have_inc
apply_trade_delta user_id merch_id delta_trade delta_have delta_want = do
  trade_qty ← reads (λ db. stock db user_id merch_id trade)
  if leb_ℤ delta_trade (pos 0) || leb_ℤ delta_trade trade_qty
      then pure tt
      else fail (AppError.bad_request "Insufficient TRADE quantity to apply inventory")
  if ltb_ℤ (pos 0) delta_trade
      then adjust user_id merch_id trade (λ q. q -ℤ delta_trade)
      else pure tt
  if ltb_ℤ (pos 0) delta_have then have_inc user_id merch_id delta_have else pure tt
  if ltb_ℤ delta_have (pos 0)
      then adjust user_id merch_id have (λ q. max_ℤ (q +ℤ delta_have) (pos 0))
      else pure tt
  if ltb_ℤ delta_want (pos 0)
      then adjust user_id merch_id want (λ q. max_ℤ (q +ℤ delta_want) (pos 0))
      else pure tt

-- `HashMap<i32, i32>` by merch id: the newest entry stands first and hides older ones.
abbrev pub QtyMap : Type 0
QtyMap = List (ℕ × ℤ)

-- `map.get(merch_id).copied().unwrap_or(0)`
unfoldable pub qty_of : ℕ → QtyMap → ℤ
qty_of merch_id [] = pos 0
qty_of merch_id ((k, q) ∷ m) = if k == merch_id then q else qty_of merch_id m

-- `merch_id = ANY(ids)`
unfoldable pub any_of : ℕ → List ℕ → Bool
any_of merch_id [] = false
any_of merch_id (k ∷ ks) = k == merch_id || any_of merch_id ks

unfoldable pub insert_rows : List InventoryRow → QtyMap → QtyMap
insert_rows [] m = m
insert_rows (r ∷ rs) m = insert_rows rs ((r.merch_id, r.quantity) ∷ m)

-- `quantities_for_status`; no row matches an empty list of ids, so its early return is the same.
unfoldable pub quantities_for_status : ℕ → List ℕ → Holding → Db → QtyMap
unfolding insert_rows any_of
quantities_for_status user_id merch_ids status db =
    insert_rows
      (select
        (λ r. r.user_id == user_id && holding_eq r.status status && any_of r.merch_id merch_ids)
        db.inventory)
      []

unfoldable pub want_quantities : ℕ → List ℕ → Db → QtyMap
unfolding quantities_for_status
want_quantities user_id merch_ids db = quantities_for_status user_id merch_ids want db
