-- ===== src/Accounts.antt =====
-- Accounts: the rest of backend/src/repositories/user.rs, backend/src/handlers/auth.rs and the views of
-- handlers/mappers.rs. The columns of `users` that hold credentials stand apart from those that the gates read,
-- joined by the id. `created_at` and the reason of a ban are left out.
pub mod Private
use ymatch.Common.{
  leb, str_eq, ℕ, zero, suc, ◌+◌, ◌-◌, ◌≤◌, ◌<◌, String, ◌≡◌, refl, sym, ap, ◌∙◌, ◌≢◌, ◌↔◌, ◌⊎◌,
  inl, inr, Bool, true, false, not, ◌&&◌, ◌||◌, Option, none, some, List, [], ◌∷◌, ◌++◌, map, arith,
  ◌==◌, if◌then◌else◌, Bool-cases, Option-cases, select, fetch, exists_row, update, delete, All,
}
use ymatch.Error.{Result, ok, err, AppError, unique_violation, ◌>>=◌, ◌>>◌}
use ymatch.Store.{UserRow}
use ymatch.Rbac.{Authority, ScopeType, UserRoleRow, same_type}
use ymatch.Rbac.Permission.{Scope, user_read}
use ymatch.Rbac.Catalog.{PermissionCatalog}
use ymatch.Rbac.Service.{verify_active, check, is_null}
use ymatch.Rbac.Members.{role_names}
use ymatch.Rbac.Users.{has_user_id}
use ymatch.Api.{found_or, require_global}
use ymatch.Api.Merch.{given}

pub record Credentials : Type 0 where
  pub user_id : ℕ
  pub uuid : Option String
  pub device_token : Option String

pub record Accounts : Type 0 where
  pub auth : Authority
  pub credentials : List Credentials
  pub next_user_id : ℕ

-- The message `User`.
pub record User : Type 0 where
  pub id : ℕ
  pub username : String
  pub uuid : Option String
  pub device_token : Option String
  pub role : Option String
  pub is_banned : Option Bool
  pub banned_until : Option ℕ

-- CASE r.name … END of USER_COLUMNS
abbrev pub global_rank : String → ℕ
global_rank name =
    if str_eq name "admin"
    then 0
    else if str_eq name "moderator"
    then 1
    else if str_eq name "editor"
    then 2
    else 3

abbrev higher : String → Option String → String
higher name none = name
higher name (some other) = if leb (global_rank name) (global_rank other) then name else other

unfoldable pub highest : List String → Option String
highest [] = none
highest (name ∷ names) = some (higher name (highest names))

abbrev or_user : Option String → String
or_user none = "user"
or_user (some role) = role

-- The global role, with `user` for none.
unfoldable pub role_of : ℕ → Authority → String
unfolding highest
role_of user_id auth = or_user (
    highest (
      role_names auth (
        select
          (λ (row : UserRoleRow).
            row.user_id == user_id
            && (same_type row.scope_type ScopeType.global && is_null row.scope_id))
          auth.user_roles)))

abbrev pub has_credentials : ℕ → Credentials → Bool
has_credentials user_id c = c.user_id == user_id

abbrev uuid_of : Option Credentials → Option String
uuid_of none = none
uuid_of (some c) = c.uuid

abbrev token_of : Option Credentials → Option String
token_of none = none
token_of (some c) = c.device_token

-- `user_from_row`
unfoldable pub user_from_row : Authority → List Credentials → UserRow → User
unfolding role_of
user_from_row auth credentials u = record {
  id = u.id;
  username = u.username;
  uuid = uuid_of (fetch (has_credentials u.id) credentials);
  device_token = token_of (fetch (has_credentials u.id) credentials);
  role = some (role_of u.id auth);
  is_banned = some u.is_banned;
  banned_until = u.banned_until;
}

unfoldable pub credential_free_user_view : User → User
credential_free_user_view user = record user { uuid = none; device_token = none }

unfoldable pub staff_user_view : User → User
staff_user_view user = record user { uuid = none }

unfoldable pub directory_user_view : User → User
directory_user_view user = record {
  id = user.id;
  username = user.username;
  uuid = none;
  device_token = none;
  role = none;
  is_banned = none;
  banned_until = none;
}

abbrev found_user : Accounts → Option UserRow → Option User
found_user accounts none = none
found_user accounts (some u) = some (user_from_row accounts.auth accounts.credentials u)

unfoldable pub get_user : ℕ → Accounts → Option User
unfolding user_from_row
get_user id accounts = found_user accounts (fetch (has_user_id id) accounts.auth.users)

abbrev pub has_uuid : String → Credentials → Bool
has_uuid uuid c = elim c.uuid [ none ↦ false | some stored ↦ str_eq stored uuid ]

abbrev user_with : Accounts → Option Credentials → Option User
user_with accounts none = none
user_with accounts (some c) =
    found_user accounts (fetch (has_user_id c.user_id) accounts.auth.users)

unfoldable pub get_by_uuid : String → Accounts → Option User
unfolding user_from_row
get_by_uuid uuid accounts = user_with accounts (fetch (has_uuid uuid) accounts.credentials)

abbrev pub new_user : ℕ → String → UserRow
new_user id username = record {
  id = id;
  username = username;
  is_banned = false;
  banned_until = none;
}

abbrev pub with_user : String → String → Option String → Accounts → Accounts
with_user username uuid device_token accounts = record {
  auth = record accounts.auth {
    users = accounts.auth.users ++ new_user accounts.next_user_id username ∷ [];
  };
  credentials =
      accounts.credentials
      ++ record { user_id = accounts.next_user_id; uuid = some uuid; device_token = device_token }
        ∷ [];
  next_user_id = suc accounts.next_user_id;
}

abbrev pub is_named : String → UserRow → Bool
is_named username u = str_eq u.username username

-- `create_guest`: usernames and uuids are unique.
unfoldable pub create_guest : String → String → Option String → Accounts → Result (User × Accounts)
unfolding user_from_row
create_guest username uuid device_token accounts =
    let after = with_user username uuid device_token accounts in
    if exists_row (is_named username) accounts.auth.users
      || exists_row (has_uuid uuid) accounts.credentials
    then err unique_violation
    else ok (
      user_from_row after.auth after.credentials (new_user accounts.next_user_id username),
      after,
    )

-- `list_all`, in the order of the table.
unfoldable pub list_all_users : Accounts → List User
unfolding user_from_row
list_all_users accounts = map (user_from_row accounts.auth accounts.credentials) accounts.auth.users

abbrev renamed : ℕ → String → Accounts → Accounts
renamed id username accounts = record accounts {
  auth = record accounts.auth {
    users =
        update (has_user_id id) (λ (u : UserRow). record u { username = username })
          accounts.auth.users;
  };
}

unfoldable pub set_username : ℕ → String → Accounts → Result (Option User × Accounts)
unfolding get_user
set_username id username accounts =
    if exists_row (λ (u : UserRow). is_named username u && not (u.id == id)) accounts.auth.users
      && exists_row (has_user_id id) accounts.auth.users
    then err unique_violation
    else ok (get_user id (renamed id username accounts), renamed id username accounts)

unfoldable pub update_device_token : ℕ → Option String → Accounts → Accounts
update_device_token id device_token accounts = record accounts {
  credentials =
      update (has_credentials id) (λ (c : Credentials). record c { device_token = device_token })
        accounts.credentials;
}

pub record GuestLoginRequest : Type 0 where
  pub uuid : String
  pub device_token : Option String
  pub existing_only : Option Bool

abbrev pub or_no : Option Bool → Bool
or_no none = false
or_no (some b) = b

abbrev with_token : Option String → User → Accounts → User × Accounts
with_token none user accounts = (user, accounts)
with_token (some token) user accounts =
    (record user { device_token = some token }, update_device_token user.id (some token) accounts)

-- The last eight bytes.
abbrev suffix : String → String
suffix uuid =
    Prim.Native.String.slice uuid (Prim.Native.String.len uuid - 8) (Prim.Native.String.len uuid)

infixl 65 ◌<>◌
abbrev ◌<>◌ : String → String → String
s <> t = Prim.Native.String.◌++◌ s t

-- `canonical` is the test of the uuid crate, `unique_id` the first six characters of its random one.
abbrev log_in :
    (String → Bool) → String → GuestLoginRequest → Option User → Accounts → Result (User × Accounts)
log_in canonical unique_id payload (some user) accounts = do
  if or_no user.is_banned then err (AppError.forbidden "User is banned") else ok tt
  ok (with_token payload.device_token user accounts)
log_in canonical unique_id payload none accounts = do
  if or_no payload.existing_only then err (AppError.not_found "Account not found") else ok tt
  if canonical payload.uuid then ok tt else err (AppError.bad_request "uuid must be a UUID v4")
  create_guest ("Guest_" <> suffix payload.uuid <> "_" <> unique_id) payload.uuid
      payload.device_token accounts

unfoldable pub guest_login :
    (String → Bool) → String → GuestLoginRequest → Accounts → Result (User × Accounts)
unfolding get_by_uuid create_guest update_device_token
guest_login canonical unique_id payload accounts =
    log_in canonical unique_id payload (get_by_uuid payload.uuid accounts) accounts

-- The match in `list_users`: Forbidden is the lean list, another error goes on.
abbrev as_staff : Result (Unit {0}) → Result Bool
as_staff (ok _) = ok true
as_staff (err (AppError.forbidden _)) = ok false
as_staff (err e) = err e

unfoldable pub list_users : Option PermissionCatalog → Option ℕ → Accounts → Result (List User)
unfolding list_all_users
list_users cell query_user_id accounts = do
  uid ← given query_user_id "user_id query parameter required"
  caller ← verify_active uid accounts.auth
  is_staff ← as_staff (check cell accounts.auth caller Scope.global user_read)
  ok (
      if is_staff
      then map credential_free_user_view (list_all_users accounts)
      else map directory_user_view (list_all_users accounts))

unfoldable pub update_username :
    (String → String) → ℕ → ℕ → String → Accounts → Result (User × Accounts)
unfolding set_username
update_username trim id user_id username accounts = do
  if user_id == id then ok tt else err (AppError.forbidden "You can only update your own username")
  if str_eq (trim username) "" then err (AppError.bad_request "Username cannot be empty") else ok tt
  updated ← set_username id (trim username) accounts
  user ← found_or updated.0 "User not found"
  ok (credential_free_user_view user, updated.1)

-- `get_user_details` of handlers/admin.rs
unfoldable pub get_user_details : Option PermissionCatalog → ℕ → Option ℕ → Accounts → Result User
unfolding get_user
get_user_details cell target_id query_user_id accounts = do
  caller ← require_global cell query_user_id user_read accounts.auth
  user ← found_or (get_user target_id accounts) "User not found"
  ok (staff_user_view user)
