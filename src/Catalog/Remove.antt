-- ===== src/Catalog/Remove.antt =====
-- `publish`, the soft delete and `get_creator` of the repository.
use ymatch.Common.{
  ℕ, String, Bool, true, false, ◌&&◌, Option, none, some, ◌==◌, if◌then◌else◌, fetch, exists_row,
  update,
}
use ymatch.Store.{MerchRow, Db, Tx, pure, reads, writes, ◌>>=◌, ◌>>◌}
use ymatch.Store.Capacity.{cancel_after_merch_delete}
use ymatch.Catalog.{DeleteOutcome, soft_deleted, is_live_at}

-- `publish`, with None when no live row has the id.
unfoldable pub publish : ℕ → ℕ → Tx (Option (Unit {0}))
publish event_id merch_id = do
  there ← reads (λ db. exists_row (is_live_at event_id merch_id) db.merchandise)
  writes (λ db. record db {
    merchandise =
        update (is_live_at event_id merch_id) (λ m. record m { status = "published" })
          db.merchandise;
  })
  pure (if there then some tt else none)

abbrev pub cancel_reason_merch_deleted : String
cancel_reason_merch_deleted = "MERCH_DELETED"

abbrev pub soft_delete : MerchRow → MerchRow
soft_delete m = record m { is_deleted = true; trade_enabled = false }

abbrev pub has_merch_id : ℕ → MerchRow → Bool
has_merch_id merch_id m = m.id == merch_id

-- The rest of `delete_by_id` for the row that is locked.
unfoldable pub delete_row : ℕ → Option MerchRow → Tx (Option DeleteOutcome)
delete_row merch_id none = pure none
delete_row merch_id (some row) = do
  writes
      (λ db. record db { merchandise = update (has_merch_id merch_id) soft_delete db.merchandise })
  cancel_after_merch_delete merch_id row.event_id row.group_name cancel_reason_merch_deleted
  pure (some soft_deleted)

unfoldable pub delete_by_id : ℕ → Tx (Option DeleteOutcome)
unfolding delete_row
delete_by_id merch_id = do
  row ← reads (λ db. fetch (has_merch_id merch_id) db.merchandise)
  delete_row merch_id row

unfoldable pub delete_merch : ℕ → ℕ → Tx (Option DeleteOutcome)
delete_merch event_id merch_id = delete_by_id merch_id

abbrev creator_of_merch : Option MerchRow → Option (Option ℕ)
creator_of_merch none = none
creator_of_merch (some m) = some m.creator_id

-- `MerchandiseRepository::get_creator`, which sees deleted rows too.
unfoldable pub get_creator : ℕ → ℕ → Db → Option (Option ℕ)
get_creator event_id merch_id db =
    creator_of_merch
      (fetch (λ (m : MerchRow). m.id == merch_id && m.event_id == event_id) db.merchandise)
