-- ===== src/Groups.antt =====
-- backend/src/repositories/group.rs beyond creation and transfer, and `delete` of match_/write.rs. `trim` is Rust's
-- and `le_text` the collation's order: parameters.
pub mod Removed
use ymatch.Common.{
  str_eq, ℕ, zero, suc, ◌+◌, ◌-◌, ◌≤◌, ◌<◌, String, ◌≡◌, refl, sym, ap, ◌∙◌, ◌≢◌, ◌↔◌, ◌⊎◌, inl,
  inr, Bool, true, false, not, ◌&&◌, ◌||◌, Option, none, some, List, [], ◌∷◌, ◌++◌, map, arith,
  ◌==◌, if◌then◌else◌, Bool-cases, Option-cases, select, fetch, exists_row, update, delete, All,
}
use ymatch.Common.{length}
use ymatch.Error.{Result, ok, err, AppError, constraint_violation, ◌>>=◌, ◌>>◌}
use ymatch.Store.{Db, MatchRow, MatchItemRow, MessageRow, MerchRow, UserRow}
use ymatch.Store.Matches.{in_group}
use ymatch.Rbac.{Authority, ScopeType, EventRow, GroupRow, UserRoleRow, same_type}
use ymatch.Rbac.Transfer.{has_group_name, has_event_id}
use ymatch.Rbac.Creation.{nonempty, or_empty}
use ymatch.Rbac.Service.{is_at}
use ymatch.Rbac.Users.{get_by_id}
use ymatch.Catalog.{Site, is_live}
use ymatch.Favorites.{Marks, GroupMark}

-- All that the removal of a group writes.
pub record World : Type 0 where
  pub site : Site
  pub marks : Marks

-- `MatchRepository::delete`: the legs go with the match (ON DELETE CASCADE), its messages refuse it.
unfoldable pub delete_match : ℕ → Db → Result (Bool × Db)
delete_match match_id db =
    if exists_row (λ (r : MatchRow). r.id == match_id) db.matches
    then if exists_row (λ (m : MessageRow). m.match_id == match_id) db.messages
      then err constraint_violation
      else ok (
        true,
        record db {
          matches = delete (λ (r : MatchRow). r.id == match_id) db.matches;
          match_items = delete (λ (i : MatchItemRow). i.match_id == match_id) db.match_items;
        },
      )
    else ok (false, db)

-- `UpdateGroupRequest`
pub record UpdateGroupRequest : Type 0 where
  pub event_id : ℕ
  pub user_id : ℕ
  pub group_name : String
  pub description : Option String
  pub photo_url : Option String
  pub display_name : Option String

-- None leaves the column, an empty text clears it.
abbrev pub set_text : (String → String) → Option String → Option String → Option String
set_text trim none old = old
set_text trim (some raw) old = nonempty (trim raw)

abbrev pub edited_group : (String → String) → UpdateGroupRequest → GroupRow → GroupRow
edited_group trim req g = record g {
  description = or_empty req.description;
  photo_url = set_text trim req.photo_url g.photo_url;
  display_name = set_text trim req.display_name g.display_name;
}

abbrev edit_found :
    (String → String)
    → UpdateGroupRequest
    → Option GroupRow
    → Authority
    → Option GroupRow × Authority
edit_found trim req none auth = (none, auth)
edit_found trim req (some g) auth = (
  some (edited_group trim req g),
  record auth {
    groups =
        update (has_group_name req.event_id (trim req.group_name)) (edited_group trim req)
          auth.groups;
  },
)

-- `MerchandiseGroupRepository::update`
unfoldable pub update_group :
    (String → String) → UpdateGroupRequest → Authority → Result (Option GroupRow × Authority)
update_group trim req auth = do
  if str_eq (trim req.group_name) ""
      then err (AppError.bad_request "group_name is required")
      else ok tt
  ok (
      edit_found trim req (fetch (has_group_name req.event_id (trim req.group_name)) auth.groups)
        auth)

-- WHERE event_id = $1 AND group_name = $2 in `matches`, `merchandise` and `group_favorites`.
abbrev pub match_in_group : ℕ → String → MatchRow → Bool
match_in_group event_id group_name r = r.event_id == event_id && str_eq r.group_name group_name

abbrev pub merch_in_group : ℕ → String → MerchRow → Bool
merch_in_group event_id group_name m = m.event_id == event_id && in_group m.group_name group_name

abbrev pub favorite_in_group : ℕ → String → GroupMark → Bool
favorite_in_group event_id group_name f = f.event_id == event_id && str_eq f.group_name group_name

-- The match of the id is one of the group.
abbrev pub belongs : ℕ → String → List MatchRow → ℕ → Bool
belongs event_id group_name matches match_id =
    exists_row (λ (r : MatchRow). r.id == match_id && match_in_group event_id group_name r) matches

abbrev pub at_group : ℕ → UserRoleRow → Bool
at_group group_id row = same_type row.scope_type ScopeType.group && is_at row.scope_id group_id

abbrev pub retire : MerchRow → MerchRow
retire m = record m { is_deleted = true; trade_enabled = false }

-- The DELETEs and the UPDATE of `remove_for_admin`; the legs go with the matches.
abbrev pub without_group_db : ℕ → String → Db → Db
without_group_db event_id group_name db = record db {
  messages =
      delete (λ (m : MessageRow). belongs event_id group_name db.matches m.match_id) db.messages;
  matches = delete (match_in_group event_id group_name) db.matches;
  match_items =
      delete (λ (i : MatchItemRow). belongs event_id group_name db.matches i.match_id)
        db.match_items;
  merchandise = update (merch_in_group event_id group_name) retire db.merchandise;
}

abbrev pub without_group_auth : ℕ → String → ℕ → Authority → Authority
without_group_auth event_id group_name group_id auth = record auth {
  user_roles = delete (at_group group_id) auth.user_roles;
  groups = delete (has_group_name event_id group_name) auth.groups;
}

abbrev remove_found : ℕ → String → Option GroupRow → World → Bool × World
remove_found event_id group_name none world = (false, world)
remove_found event_id group_name (some g) world = (
  true,
  record {
    site = record {
      auth = without_group_auth event_id group_name g.id world.site.auth;
      db = without_group_db event_id group_name world.site.db;
    };
    marks = record world.marks {
      group_favorites = delete (favorite_in_group event_id group_name) world.marks.group_favorites;
    };
  },
)

unfoldable pub remove_for_admin : ℕ → String → World → Bool × World
remove_for_admin event_id group_name world =
    remove_found event_id group_name
      (fetch (has_group_name event_id group_name) world.site.auth.groups) world

pub record AdminGroup : Type 0 where
  pub event_id : ℕ
  pub event_name : String
  pub group_name : String
  pub display_name : Option String
  pub creator_id : Option ℕ
  pub creator_username : Option String
  pub item_count : ℕ

abbrev username_of : Option UserRow → Option String
username_of none = none
username_of (some u) = some u.username

abbrev creator_name : Authority → Option ℕ → Option String
creator_name auth none = none
creator_name auth (some user_id) = username_of (get_by_id user_id auth)

abbrev admin_group : Site → GroupRow → Option EventRow → List AdminGroup
admin_group site g none = []
admin_group site g (some e) =
    record {
      event_id = g.event_id;
      event_name = e.name;
      group_name = g.group_name;
      display_name = g.display_name;
      creator_id = g.created_by;
      creator_username = creator_name site.auth g.created_by;
      item_count =
          length (
            select (λ m. merch_in_group g.event_id g.group_name m && is_live m)
              site.db.merchandise);
    }
    ∷ []

unfoldable pub admin_groups : Site → List GroupRow → List AdminGroup
unfolding get_by_id
admin_groups site [] = []
admin_groups site (g ∷ gs) =
    admin_group site g (fetch (has_event_id g.event_id) site.auth.events) ++ admin_groups site gs

-- Stable insertion by a test that says what may stand before.
unfoldable pub insert_before {ℓ} : {A : Type ℓ} → (A → A → Bool) → A → List A → List A
insert_before le x [] = x ∷ []
insert_before le x (y ∷ ys) = if le x y then x ∷ y ∷ ys else y ∷ insert_before le x ys

unfoldable pub order_by {ℓ} : {A : Type ℓ} → (A → A → Bool) → List A → List A
unfolding insert_before
order_by le [] = []
order_by le (x ∷ xs) = insert_before le x (order_by le xs)

abbrev admin_le : (String → String → Bool) → AdminGroup → AdminGroup → Bool
admin_le le_text a b =
    if str_eq a.event_name b.event_name
    then le_text a.group_name b.group_name
    else le_text a.event_name b.event_name

unfoldable pub list_all_for_admin : (String → String → Bool) → Site → List AdminGroup
unfolding admin_groups order_by
list_all_for_admin le_text site = order_by (admin_le le_text) (admin_groups site site.auth.groups)

-- `list_for_event` of the groups
unfoldable pub list_groups_for_event : (String → String → Bool) → ℕ → Authority → List GroupRow
unfolding order_by
list_groups_for_event le_text event_id auth =
    order_by (λ (a b : GroupRow). le_text a.group_name b.group_name)
      (select (λ (g : GroupRow). g.event_id == event_id) auth.groups)
