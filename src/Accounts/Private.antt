-- ===== src/Accounts/Private.antt =====
-- What the answers about users keep to themselves, and what a login finds.
use ymatch.Common.{
  ==_self, str_eq_self, str_eq, ℕ, String, ◌≡◌, refl, sym, ap, ◌∙◌, inl, inr, Bool, false, not,
  ◌&&◌, ◌||◌, Option, none, some, List, [], ◌∷◌, map, arith, ◌==◌, if◌then◌else◌, Bool-cases,
  Option-cases, fetch, exists_row, update,
}
use ymatch.Common.Rows.{fetch-append_none, exists_row-false}
use ymatch.Error.{Result, ok, err, AppError, ok_inj, >>=-eq_ok}
use ymatch.Store.{UserRow}
use ymatch.Rbac.{Authority}
use ymatch.Rbac.Catalog.{PermissionCatalog}
use ymatch.Rbac.Users.{has_user_id}
use ymatch.Accounts.{
  update_device_token, new_user, or_no, Accounts, Credentials, User, list_users, update_username,
  user_from_row, list_all_users, get_user, set_username, credential_free_user_view,
  directory_user_view, GuestLoginRequest, guest_login, get_by_uuid, create_guest, has_uuid,
  is_named, with_user,
}

-- The same users with other secrets.
abbrev pub with_credentials : List Credentials → Accounts → Accounts
with_credentials credentials accounts = record accounts { credentials = credentials }

abbrev pub answer : Result (User × Accounts) → Result User
answer (ok (user, accounts)) = ok user
answer (err e) = err e

free-list :
    (auth : Authority) (c c' : List Credentials) (users : List UserRow)
    → map credential_free_user_view (map (user_from_row auth c) users)
      ≡ map credential_free_user_view (map (user_from_row auth c') users)
unfolding user_from_row credential_free_user_view
free-list auth c c' [] = refl
free-list auth c c' (u ∷ us) = rw (free-list auth c c' us) refl

lean-list :
    (auth : Authority) (c c' : List Credentials) (users : List UserRow)
    → map directory_user_view (map (user_from_row auth c) users)
      ≡ map directory_user_view (map (user_from_row auth c') users)
unfolding user_from_row directory_user_view
lean-list auth c c' [] = refl
lean-list auth c c' (u ∷ us) = rw (lean-list auth c c' us) refl

name_private :
    (trim : String → String) (id user_id : ℕ) (username : String) (accounts : Accounts)
    (credentials : List Credentials)
    → answer (update_username trim id user_id username (with_credentials credentials accounts))
      ≡ answer (update_username trim id user_id username accounts)
unfolding update_username set_username get_user user_from_row credential_free_user_view
name_private trim id user_id username accounts credentials =
    let users = accounts.auth.users in
    elim (Bool-cases (user_id == id)) [
      | inr differs ↦ rw differs refl
      | inl me ↦ elim (Bool-cases (str_eq (trim username) "")) [
        | inl blank ↦ rw (me, blank) refl
        | inr text ↦
            elim (Bool-cases (
              exists_row (λ (u : UserRow). is_named (trim username) u && not (u.id == id)) users
              && exists_row (has_user_id id) users)) [
                | inl taken ↦ rw (me, text, taken) refl
                | inr free ↦
                    elim (Option-cases (
                      fetch (has_user_id id) (
                        update (has_user_id id)
                          (λ (u : UserRow). record u { username = trim username }) users))) [
                            | inl gone ↦ rw (me, text, free, gone) refl
                            | inr (u, there) ↦ rw (me, text, free, there) refl
                          ]
              ]
      ]
    ]

-- What the list of users and the change of a name answer does not depend on any uuid or device token: with
-- other secrets in the table every caller gets the same answer, errors included.
pub list_users-private :
    (cell : Option PermissionCatalog) (query_user_id : Option ℕ) (trim : String → String)
    (id user_id : ℕ) (username : String) (accounts : Accounts) (credentials : List Credentials)
    → (list_users cell query_user_id (with_credentials credentials accounts)
        ≡ list_users cell query_user_id accounts)
      × (answer (update_username trim id user_id username (with_credentials credentials accounts))
          ≡ answer (update_username trim id user_id username accounts))
unfolding list_users list_all_users update_username set_username get_user user_from_row
    credential_free_user_view
list_users-private cell query_user_id trim id user_id username accounts credentials = (
  rw
      (
        free-list accounts.auth credentials accounts.credentials accounts.auth.users,
        lean-list accounts.auth credentials accounts.credentials accounts.auth.users,
      )
      refl,
  name_private trim id user_id username accounts credentials,
)

or_false : (a b : Bool) → (a || b) ≡ false → b ≡ false
or_false a b h = ground arith

-- The account that was just added is the one with its uuid.
with_user-found :
    (username uuid : String) (token : Option String) (accounts : Accounts)
    → exists_row (has_user_id accounts.next_user_id) accounts.auth.users ≡ false
    → exists_row (has_uuid uuid) accounts.credentials ≡ false
    → let after = with_user username uuid token accounts in
      get_by_uuid uuid after
      ≡ some (user_from_row after.auth after.credentials (new_user accounts.next_user_id username))
unfolding get_by_uuid fetch
with_user-found username uuid token accounts fresh unused =
    rw
      (
        fetch-append_none (has_uuid uuid) accounts.credentials _
            (exists_row-false (has_uuid uuid) accounts.credentials unused),
        str_eq_self uuid,
        fetch-append_none (has_user_id accounts.next_user_id) accounts.auth.users _
            (exists_row-false (has_user_id accounts.next_user_id) accounts.auth.users fresh),
        ==_self accounts.next_user_id,
      )
      refl

create_guest-found :
    (username uuid : String) (token : Option String) (accounts accounts' : Accounts) (user : User)
    → exists_row (has_user_id accounts.next_user_id) accounts.auth.users ≡ false
    → create_guest username uuid token accounts ≡ ok (user, accounts')
    → (get_by_uuid uuid accounts' ≡ some user) × (user.is_banned ≡ some false)
unfolding create_guest user_from_row
create_guest-found username uuid token accounts accounts' user fresh h =
    elim (Bool-cases (
      exists_row (is_named username) accounts.auth.users
      || exists_row (has_uuid uuid) accounts.credentials)) [
        | inl taken ↦ absurd (let refused = rw taken at h in cc)
        | inr free ↦
            let done = ok_inj (rw free at h) in
            let user_is = ap (λ (p : User × Accounts). p.0) done in
            (
              ap (get_by_uuid uuid) (sym (ap (λ (p : User × Accounts). p.1) done))
                  ∙ with_user-found username uuid token accounts fresh
                      (or_false (exists_row (is_named username) accounts.auth.users) _ free)
                  ∙ ap some user_is,
              ap (λ (u : User). u.is_banned) (sym user_is),
            )
      ]

-- Where the next id of the sequence is free, a guest who is let in with a new uuid finds the same account with
-- the same uuid again, whether or not only an existing account will do. A second login without a device token
-- returns what the first did and changes nothing; one with a token returns the same user with that token, and
-- changes nothing but the token of that user.
pub guest_login-again :
    (canonical : String → Bool) (unique_id other_id : String) (payload : GuestLoginRequest)
    (accounts accounts' : Accounts) (user : User)
    → exists_row (has_user_id accounts.next_user_id) accounts.auth.users ≡ false
    → get_by_uuid payload.uuid accounts ≡ none
    → guest_login canonical unique_id payload accounts ≡ ok (user, accounts')
    → (existing_only : Option Bool) (token : String)
    → (guest_login canonical other_id
          (record { uuid = payload.uuid; device_token = none; existing_only = existing_only })
          accounts'
        ≡ ok (user, accounts'))
      × (guest_login canonical other_id
            (record {
              uuid = payload.uuid;
              device_token = some token;
              existing_only = existing_only;
            })
            accounts'
          ≡ ok (
            record user { device_token = some token },
            record accounts' {
              credentials =
                  update
                    (λ (c : Credentials). c.user_id == user.id)
                    (λ (c : Credentials). record c { device_token = some token })
                    accounts'.credentials;
            },
          ))
unfolding guest_login update_device_token
guest_login-again canonical unique_id other_id payload accounts accounts' user fresh new h only
      token =
    let (_, _, h1) =
      >>=-eq_ok
        (if or_no payload.existing_only
          then err (AppError.not_found "Account not found")
          else ok tt)
        _ (rw new at h) in
    let (_, _, h2) =
      >>=-eq_ok
        (if canonical payload.uuid
          then ok tt
          else err (AppError.bad_request "uuid must be a UUID v4"))
        _ h1 in
    let (there, free) =
      create_guest-found _ payload.uuid payload.device_token accounts accounts' user fresh h2 in
    (rw (there, free) refl, rw (there, free) refl)
