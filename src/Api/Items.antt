-- ===== src/Api/Items.antt =====
-- What the requests about items come to.
use ymatch.Lifecycle.Capacity.{CanTrade}
use ymatch.Common.{
  ℕ, ◌≡◌, refl, inl, inr, true, false, ◌&&◌, Option, some, List, [], ◌∷◌, ◌==◌, Bool-cases, fetch,
  exists_row, All,
}
use ymatch.Store.{MerchRow, Db}
use ymatch.Store.Capacity.{list_active_ids_referencing_merch, group_scopes}
use ymatch.Error.{ok}
use ymatch.Rbac.Catalog.{PermissionCatalog}
use ymatch.Rbac.Service.{VerifiedUser, verify_active, require_owner_or, is_at}
use ymatch.Catalog.{Site, is_live}
use ymatch.Catalog.Remove.{has_merch_id, get_creator, delete_merch}
use ymatch.Catalog.Removed.{delete_by_id-Removed}
use ymatch.Api.Merch.{delete_merch_by_creator, require_merch}

-- The first row with an id is the first with the id and its event.
fetch-narrowed :
    (event_id merch_id : ℕ) (row : MerchRow) (rows : List MerchRow)
    → fetch (has_merch_id merch_id) rows ≡ some row
    → (row.event_id == event_id) ≡ true
    → fetch (λ (m : MerchRow). m.id == merch_id && m.event_id == event_id) rows ≡ some row
unfolding fetch
fetch-narrowed event_id merch_id row [] there same = cc
fetch-narrowed event_id merch_id row (m ∷ ms) there same = elim (Bool-cases (m.id == merch_id)) [
  | inl hit ↦
      let found : some m ≡ some row = rw hit at there in
      let is_row : m ≡ row = cc in rw (hit, is_row, same) refl
  | inr miss ↦ rw miss (fetch-narrowed event_id merch_id row ms (rw miss at there) same)
]

-- An active user who created an item can always delete it, whatever the matches: after it no live row has
-- the id, no active match has a leg of it, and the active matches of its group can all still be traded.
pub delete_merch_by_creator-own :
    (cell : Option PermissionCatalog) (event_id merch_id user_id : ℕ) (user : VerifiedUser)
    (row : MerchRow) (site : Site)
    → verify_active user_id site.auth ≡ ok user
    → fetch (has_merch_id merch_id) site.db.merchandise ≡ some row
    → (row.event_id == event_id) ≡ true
    → is_at row.creator_id user.id ≡ true
    → (db' : Db) × (delete_merch_by_creator cell event_id merch_id (some user_id) site
        ≡ ok (record site { db = db' }))
      × (exists_row (λ m. has_merch_id merch_id m && is_live m) db'.merchandise ≡ false)
      × (list_active_ids_referencing_merch merch_id db' ≡ [])
      × All (CanTrade db') (group_scopes row.event_id row.group_name db')
unfolding delete_merch_by_creator require_merch require_owner_or get_creator delete_merch
delete_merch_by_creator-own cell event_id merch_id user_id user row site active there same own =
    let (db', deleted, gone, unused, tradable) = delete_by_id-Removed merch_id row site.db there in
    (
      db',
      rw (active, fetch-narrowed event_id merch_id row site.db.merchandise there same, own, deleted)
          refl,
      gone,
      unused,
      tradable,
    )
