-- ===== src/Examples/Directory.antt =====
-- Accounts, favorites and the removal of a group on small tables.
use ymatch.Rbac.Users.{has_user_id}
use ymatch.Common.{
  ◌==◌, update, Option, String, ◌≡◌, refl, Bool, true, false, not, ◌&&◌, none, some, List, [], ◌∷◌,
  if◌then◌else◌, select, fetch, exists_row,
}
use ymatch.Common.{length}
use ymatch.Error.{err, ok}
use ymatch.Store.{offered}
use ymatch.Rbac.{EventRow, GroupRow}
use ymatch.Rbac.Transfer.{has_group_name}
use ymatch.Accounts.{
  Accounts, Credentials, User, list_users, update_username, GuestLoginRequest, guest_login,
  get_by_uuid, create_guest,
}
use ymatch.Accounts.Private.{list_users-private, guest_login-again, with_credentials, answer}
use ymatch.Favorites.{known, Marks, stats_of}
use ymatch.Favorites.Parity.{is_call, is_odd, ToggleCall, toggle_all, toggle_all-parity}
use ymatch.Catalog.{is_live}
use ymatch.Groups.{
  World, remove_for_admin, match_in_group, favorite_in_group, merch_in_group, at_group,
}
use ymatch.Groups.Removed.{References, remove_for_admin-Removed}
use ymatch.Examples.{db_at}
use ymatch.Examples.Roles.{auth}

abbrev secrets : List Credentials
secrets = record { user_id = 1; uuid = some "u1"; device_token = some "t1" } ∷ []

abbrev accounts : Accounts
accounts = record { auth = auth; credentials = secrets; next_user_id = 4 }

abbrev plain : String → String
plain s = s

list_users-private_example :
    (list_users none (some 1) (with_credentials [] accounts) ≡ list_users none (some 1) accounts)
    × (answer (update_username plain 1 1 "new" (with_credentials [] accounts))
        ≡ answer (update_username plain 1 1 "new" accounts))
list_users-private_example = list_users-private none (some 1) plain 1 1 "new" accounts []

abbrev guest : GuestLoginRequest
guest = record { uuid = "550e8400"; device_token = some "t"; existing_only = none }

abbrev any_text : String → Bool
any_text s = true

abbrev let_in : User × Accounts
let_in = elim (guest_login any_text "abcdef" guest accounts) [
  | ok pair ↦ pair
  | err e ↦ (
    record {
      id = 0;
      username = "";
      uuid = none;
      device_token = none;
      role = none;
      is_banned = none;
      banned_until = none;
    },
    accounts,
  )
]

login_run : guest_login any_text "abcdef" guest accounts ≡ ok (let_in.0, let_in.1)
unfolding guest_login get_by_uuid create_guest fetch exists_row
login_run = refl

no_four : exists_row (has_user_id 4) auth.users ≡ false
unfolding exists_row
no_four = refl

no_guest : get_by_uuid "550e8400" accounts ≡ none
unfolding get_by_uuid fetch
no_guest = refl

abbrev again : Option String → GuestLoginRequest
again token = record { uuid = "550e8400"; device_token = token; existing_only = some true }

guest_login-again_example :
    (guest_login any_text "other!" (again none) let_in.1 ≡ ok (let_in.0, let_in.1))
    × (guest_login any_text "other!" (again (some "t9")) let_in.1
        ≡ ok (
          record let_in.0 { device_token = some "t9" },
          record let_in.1 {
            credentials =
                update
                  (λ (c : Credentials). c.user_id == let_in.0.id)
                  (λ (c : Credentials). record c { device_token = some "t9" })
                  let_in.1.credentials;
          },
        ))
guest_login-again_example =
    guest_login-again any_text "abcdef" "other!" guest accounts let_in.1 let_in.0 no_four no_guest
      login_run (some true) "t9"

abbrev no_marks : Marks
no_marks = record { event_favorites = []; group_favorites = []; event_views = [] }

abbrev toggles : List ToggleCall
toggles =
    record { user_id = 1; event_id = 5; is_favorite = true }
    ∷ record { user_id = 2; event_id = 5; is_favorite = false }
    ∷ record { user_id = 1; event_id = 5; is_favorite = true }
    ∷ record { user_id = 1; event_id = 5; is_favorite = true }
    ∷ []

abbrev event_five : EventRow
event_five = record { id = 5; name = "e"; creator_id = some 1; status = "published" }

known_pair : known 1 5 auth ≡ true
unfolding exists_row
known_pair = refl

toggle_all-parity_example :
    (stats_of (some 1) (db_at offered) (toggle_all auth toggles no_marks) event_five).is_favorite
    ≡ (if is_odd (length (select (is_call 1 5) toggles))
        then not (stats_of (some 1) (db_at offered) no_marks event_five).is_favorite
        else (stats_of (some 1) (db_at offered) no_marks event_five).is_favorite)
toggle_all-parity_example =
    toggle_all-parity auth (db_at offered) 1 event_five toggles no_marks known_pair

abbrev group_a : GroupRow
group_a = record {
  id = 2;
  event_id = 5;
  group_name = "A";
  created_by = some 1;
  description = "";
  photo_url = none;
  display_name = none;
}

abbrev world : World
world = record {
  site = record { auth = record auth { groups = group_a ∷ [] }; db = db_at offered };
  marks = no_marks;
}

group_there : fetch (has_group_name 5 "A") world.site.auth.groups ≡ some group_a
unfolding fetch
group_there = refl

all_referenced : References (db_at offered)
unfolding exists_row
all_referenced = record { messages = tt; legs = (refl, (refl, tt)) }

remove_for_admin-Removed_example :
    (world' : World) × (remove_for_admin 5 "A" world ≡ (true, world'))
    × (exists_row (has_group_name 5 "A") world'.site.auth.groups ≡ false)
    × (exists_row (match_in_group 5 "A") world'.site.db.matches ≡ false)
    × (exists_row (favorite_in_group 5 "A") world'.marks.group_favorites ≡ false)
    × (exists_row (λ m. merch_in_group 5 "A" m && is_live m) world'.site.db.merchandise ≡ false)
    × (exists_row (at_group 2) world'.site.auth.user_roles ≡ false)
    × References world'.site.db
remove_for_admin-Removed_example =
    remove_for_admin-Removed 5 "A" group_a world group_there all_referenced
