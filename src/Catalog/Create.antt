-- ===== src/Catalog/Create.antt =====
-- `MerchandiseRepository::create`, with the group and the role that it makes sure of.
use ymatch.Common.{
  ℕ, suc, String, Bool, true, false, ◌&&◌, Option, none, some, [], ◌∷◌, ◌++◌, if◌then◌else◌, fetch,
  exists_row,
}
use ymatch.Error.{Result, ok, err, AppError, constraint_violation, ◌>>=◌, ◌>>◌}
use ymatch.Store.{MerchRow, Db}
use ymatch.Rbac.{Authority, ScopeType, GroupRow, RoleRow}
use ymatch.Rbac.Transfer.{assign_role, known_user, has_group_name, is_creator_role}
use ymatch.Rbac.Creation.{has_event, or_published, trimmed}
use ymatch.Catalog.{
  Site, CreateMerchRequest, Merchandise, name_conflict, live_named, violates_unique,
  group_description,
}

abbrev pub known_creator : Option ℕ → Authority → Bool
known_creator none auth = true
known_creator (some user_id) auth = known_user user_id auth

-- INSERT INTO merchandise_groups … ON CONFLICT DO NOTHING
unfoldable pub insert_group : ℕ → String → ℕ → Authority → Result Authority
insert_group event_id group_name creator_id auth =
    if exists_row (has_group_name event_id group_name) auth.groups
    then ok auth
    else if has_event event_id auth && known_user creator_id auth
    then ok (record auth {
      groups =
          auth.groups
          ++ record {
            id = auth.next_group_id;
            event_id = event_id;
            group_name = group_name;
            created_by = some creator_id;
            description = "";
            photo_url = none;
            display_name = none;
          }
            ∷ [];
      next_group_id = suc auth.next_group_id;
    })
    else err constraint_violation

abbrev pub give_role : Option RoleRow → Option ℕ → ℕ → Authority → Result Authority
give_role (some role) (some user_id) group_id auth =
    assign_role ScopeType.group user_id role.id group_id auth
give_role _ _ group_id auth = ok auth

abbrev pub give_group_role : Option GroupRow → Authority → Result Authority
give_group_role none auth = ok auth
give_group_role (some g) auth =
    give_role (fetch (is_creator_role ScopeType.group) auth.roles) g.created_by g.id auth

-- INSERT INTO user_roles SELECT mg.created_by, r.id, 'group', mg.id … ON CONFLICT DO NOTHING
unfoldable pub insert_group_role : ℕ → String → Authority → Result Authority
insert_group_role event_id group_name auth =
    give_group_role (fetch (has_group_name event_id group_name) auth.groups) auth

abbrev pub ensure_group : ℕ → String → Option ℕ → Authority → Result Authority
ensure_group event_id group_name none auth = ok auth
ensure_group event_id group_name (some creator_id) auth = do
  grouped ← insert_group event_id group_name creator_id auth
  insert_group_role event_id group_name grouped

abbrev pub merch_row : ℕ → CreateMerchRequest → ℕ → MerchRow
merch_row event_id req id = record {
  id = id;
  event_id = event_id;
  group_name = req.group_name;
  name = req.name;
  photo_url = req.photo_url;
  status = or_published req.status;
  is_deleted = false;
  trade_enabled = true;
  creator_id = req.creator_id;
}

abbrev pub with_merch : MerchRow → Site → Site
with_merch row site = record site {
  db = record site.db {
    merchandise = site.db.merchandise ++ row ∷ [];
    next_merch_id = suc site.db.next_merch_id;
  };
}

-- The INSERT, whose group name is the request's as it came, not the trimmed one.
unfoldable pub insert_merch : ℕ → CreateMerchRequest → String → Site → Result (MerchRow × Site)
unfolding violates_unique
insert_merch event_id req group_name site =
    let row = merch_row event_id req site.db.next_merch_id in
    if violates_unique row site.db.merchandise
    then err (name_conflict req.name group_name)
    else if has_event event_id site.auth && known_creator req.creator_id site.auth
    then ok (row, with_merch row site)
    else err constraint_violation

abbrev pub required_group : Option String → Result String
required_group none = err (AppError.bad_request "group_name is required")
required_group (some group) = ok group

abbrev pub free_name : ℕ → String → String → Db → Result (Unit {0})
free_name event_id group_name name db =
    if exists_row (live_named event_id group_name name) db.merchandise
    then err (name_conflict name group_name)
    else ok tt

unfoldable pub create :
    (String → String) → ℕ → CreateMerchRequest → Site → Result (Merchandise × Site)
unfolding insert_group insert_group_role insert_merch group_description
create trim event_id req site = do
  group_name ← required_group (trimmed trim req.group_name)
  free_name event_id group_name req.name site.db
  auth ← ensure_group event_id group_name req.creator_id site.auth
  inserted ← insert_merch event_id req group_name (record site { auth = auth })
  ok (
    record {
      row = inserted.0;
      group_description = group_description event_id group_name inserted.1.auth;
    },
    inserted.1,
  )
