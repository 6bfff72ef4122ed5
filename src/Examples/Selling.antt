-- ===== src/Examples/Selling.antt =====
-- Items made and deleted in the small state.
use ymatch.Common.{
  ℕ, String, ◌≡◌, refl, false, ◌&&◌, none, some, [], ◌∷◌, ◌++◌, ◌==◌, fetch, exists_row, All,
}
use ymatch.Error.{err, ok}
use ymatch.Store.{offered, Db}
use ymatch.Store.Capacity.{list_active_ids_referencing_merch, group_scopes}
use ymatch.Lifecycle.Capacity.{CanTrade}
use ymatch.Rbac.Service.{verify_active}
use ymatch.Catalog.{
  violates_unique, group_description, Site, CreateMerchRequest, Merchandise, is_live,
}
use ymatch.Catalog.Create.{insert_merch, insert_group_role, insert_group, create}
use ymatch.Catalog.Created.{create-listed}
use ymatch.Catalog.Remove.{has_merch_id}
use ymatch.Catalog.Lists.{list_for_event}
use ymatch.Api.Merch.{delete_merch_by_creator}
use ymatch.Api.Items.{delete_merch_by_creator-own}
use ymatch.Examples.{db_at, merch}
use ymatch.Examples.Roles.{auth}

abbrev pub site : Site
site = record { auth = auth; db = db_at offered }

abbrev request : CreateMerchRequest
request = record {
  name = "new";
  photo_url = none;
  group_name = some "A";
  creator_id = some 1;
  status = none;
}

abbrev plain : String → String
plain s = s

abbrev made : Merchandise × Site
made = elim (create plain 5 request site) [
  | ok pair ↦ pair
  | err e ↦ (record { row = merch 0; group_description = none }, site)
]

create_run : create plain 5 request site ≡ ok (made.0, made.1)
unfolding create insert_group insert_group_role insert_merch group_description fetch exists_row
    violates_unique
create_run = refl

create-listed_example :
    (list_for_event 5 (some 2) made.1 ≡ list_for_event 5 (some 2) site ++ made.0 ∷ [])
    × ((other : ℕ)
        → (5 == other) ≡ false
        → list_for_event other (some 2) made.1 ≡ list_for_event other (some 2) site)
create-listed_example = create-listed plain 5 request site made.1 made.0 (some 2) refl create_run

seller_active : verify_active 1 auth ≡ ok (record { id = 1; is_banned = false })
unfolding verify_active fetch
seller_active = refl

item_there : fetch (has_merch_id 10) (db_at offered).merchandise ≡ some (merch 10)
unfolding fetch
item_there = refl

delete_merch_by_creator-own_example :
    (db' : Db) × (delete_merch_by_creator none 5 10 (some 1) site ≡ ok (record site { db = db' }))
    × (exists_row (λ m. has_merch_id 10 m && is_live m) db'.merchandise ≡ false)
    × (list_active_ids_referencing_merch 10 db' ≡ [])
    × All (CanTrade db') (group_scopes 5 (some "A") db')
delete_merch_by_creator-own_example =
    delete_merch_by_creator-own none 5 10 1 (record { id = 1; is_banned = false }) (merch 10) site
      seller_active item_there refl refl
