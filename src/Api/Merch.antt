-- ===== src/Api/Merch.antt =====
-- backend/src/handlers/merch.rs, `delete_merch` of handlers/admin.rs, and handlers/search.rs. ILIKE with the
-- term `%q%` is a parameter.
use ymatch.Store.{Db}
use ymatch.Common.{str_eq, ℕ, String, Bool, Option, none, some, List, [], ◌∷◌, ◌++◌, map, select}
use ymatch.Error.{Result, ok, err, AppError, ◌>>=◌, ◌>>◌}
use ymatch.Rbac.{Authority, EventRow}
use ymatch.Rbac.Permission.{
  Permission, Scope, merch_create, merch_edit, merch_delete, merch_delete_any,
}
use ymatch.Rbac.Catalog.{PermissionCatalog}
use ymatch.Rbac.Service.{verify_active, check, require_owner_or}
use ymatch.Catalog.{Site, CreateMerchRequest, UpdateMerchRequest, Merchandise}
use ymatch.Catalog.Create.{create}
use ymatch.Catalog.Edit.{update_merch}
use ymatch.Catalog.Remove.{get_creator, publish, delete_by_id, delete_merch}
use ymatch.Catalog.Lists.{list_all, search_merch, MerchSearchHit, take}
use ymatch.Api
use ymatch.Api.{found_or, require_global}
use ymatch.Common.{ℕ, String, Bool, ◌&&◌, Option, none, some, List, [], ◌∷◌, ◌++◌, map, select}

-- A statement of the repository on the tables of items and matches.
abbrev pub on_db : {A : Type 0} → Result (A × Db) → Site → Result (A × Site)
on_db (err e) site = err e
on_db (ok (a, db)) site = ok (a, record site { db = db })

abbrev pub only_site : {A : Type 0} → Result (A × Site) → Result Site
only_site (err e) = err e
only_site (ok (a, site)) = ok site

-- `.ok_or_else(|| AppError::bad_request(…))?`
abbrev pub given : Option ℕ → String → Result ℕ
given none text = err (AppError.bad_request text)
given (some n) text = ok n

-- `search` of the events: which ones the LIMIT keeps is the database's choice; here the first ones.
unfoldable pub search_events : (String → Bool) → ℕ → Authority → List EventRow
unfolding take
search_events like limit auth =
    take limit (select (λ (e : EventRow). like e.name && str_eq e.status "published") auth.events)

pub record SearchResult : Type 0 where
  pub kind : String
  pub id : ℕ
  pub title : String
  pub subtitle : Option String
  pub photo_url : Option String
  pub event_id : ℕ

abbrev pub event_result : EventRow → SearchResult
event_result e = record {
  kind = "event";
  id = e.id;
  title = e.name;
  subtitle = none;
  photo_url = none;
  event_id = e.id;
}

abbrev subtitle_of : String → Option String → String
subtitle_of event_name none = event_name
subtitle_of event_name (some group) =
    Prim.Native.String.◌++◌ event_name (Prim.Native.String.◌++◌ " > " group)

abbrev pub item_result : MerchSearchHit → SearchResult
item_result hit = record {
  kind = "item";
  id = hit.id;
  title = hit.name;
  subtitle = some (subtitle_of hit.event_name hit.group_name);
  photo_url = hit.photo_url;
  event_id = hit.event_id;
}

-- `like q` is ILIKE with the term `%q%`.
unfoldable pub global_search : (String → String → Bool) → String → Site → List SearchResult
unfolding search_events search_merch
global_search like q site =
    map event_result (search_events (like q) 10 site.auth)
    ++ map item_result (search_merch (like q) 20 site)

module _ (cell : Option PermissionCatalog) where
  unfoldable pub list_all_merch : Option ℕ → Site → Result (List Merchandise)
  list_all_merch query_user_id site = do
    user ← require_global cell query_user_id merch_delete_any site.auth
    ok (list_all site)

  unfoldable pub create_merch :
      (String → String) → ℕ → CreateMerchRequest → Site → Result (Merchandise × Site)
  create_merch trim event_id payload site = do
    creator_id ← given payload.creator_id "creator_id is required"
    user ← verify_active creator_id site.auth
    owner ← found_or (Api.get_creator event_id site.auth) "Event not found"
    check cell site.auth user (Scope.event event_id) merch_create
    create trim event_id payload site

  -- The gate that the next three share: active, the item there, its creator or the permission.
  unfoldable pub require_merch : ℕ → ℕ → ℕ → Permission → Site → Result (Unit {0})
  require_merch user_id event_id merch_id permission site = do
    user ← verify_active user_id site.auth
    merch_creator_id ← found_or (get_creator event_id merch_id site.db) "Merchandise not found"
    require_owner_or cell site.auth user merch_creator_id permission (Scope.event event_id ∷ [])

  unfoldable pub update_merch_item : ℕ → ℕ → UpdateMerchRequest → Site → Result (Merchandise × Site)
  unfolding require_merch
  update_merch_item event_id merch_id payload site = do
    require_merch payload.user_id event_id merch_id merch_edit site
    updated ← update_merch event_id merch_id payload site
    item ← found_or updated.0 "Merchandise not found"
    ok (item, updated.1)

  unfoldable pub publish_merch : ℕ → ℕ → ℕ → Site → Result Site
  unfolding require_merch
  publish_merch event_id merch_id user_id site = do
    require_merch user_id event_id merch_id merch_edit site
    only_site (on_db (publish event_id merch_id site.db) site)

  unfoldable pub delete_merch_by_creator : ℕ → ℕ → Option ℕ → Site → Result Site
  unfolding require_merch
  delete_merch_by_creator event_id merch_id query_user_id site = do
    requester_id ← given query_user_id "user_id query parameter required"
    require_merch requester_id event_id merch_id merch_delete site
    only_site (on_db (delete_merch event_id merch_id site.db) site)

  -- `delete_merch` of the admin handlers: a missing item is no error.
  unfoldable pub admin_delete_merch : ℕ → Option ℕ → Site → Result Site
  admin_delete_merch id query_user_id site = do
    user ← require_global cell query_user_id merch_delete_any site.auth
    only_site (on_db (delete_by_id id site.db) site)
