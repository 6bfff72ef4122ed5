-- ===== src/Rbac/Owner.antt =====
-- The ownership short-circuit and the ban gate, on every branch.
use ymatch.Store.{UserRow}
use ymatch.Error.{forbidden, not_found, err, ok, Result}
use ymatch.Common.{
  ℕ, ◌≡◌, refl, ◌⊎◌, inl, inr, Bool, true, false, ◌&&◌, ◌||◌, Option, none, some, List, [], ◌∷◌,
  arith, ◌==◌, if◌then◌else◌, Bool-cases, Option-cases, fetch, exists_row,
}
use ymatch.Rbac.{Authority}
use ymatch.Rbac.Permission.{Permission, Scope}
use ymatch.Rbac.Catalog.{PermissionCatalog}
use ymatch.Rbac.Service.{
  verified_of, evaluate, still_banned, catalog, VerifiedUser, check, first_success,
  require_owner_or, is_at, verify_active, verify, get_verified, require_not_banned, missing,
}

abbrev is_ok {ℓ} : {A : Type ℓ} → Result A → Bool
is_ok (ok a) = true
is_ok (err e) = false

abbrev pub passes : Option PermissionCatalog → Authority → VerifiedUser → Permission → Scope → Bool
passes cell auth user permission scope = is_ok (check cell auth user scope permission)

check-cases :
    (c : PermissionCatalog) (auth : Authority) (user : VerifiedUser) (scope : Scope)
    (permission : Permission)
    → (check (some c) auth user scope permission ≡ ok tt)
      ⊎ (check (some c) auth user scope permission ≡ err (missing permission))
unfolding check catalog evaluate
check-cases c auth user scope permission = ground arith

first_success_lem :
    (c : PermissionCatalog) (auth : Authority) (user : VerifiedUser) (permission : Permission)
    (scopes : List Scope)
    → first_success (some c) auth user permission scopes (missing permission) ≡ (
        if exists_row (passes (some c) auth user permission) scopes
        then ok tt
        else err (missing permission))
unfolding first_success exists_row
first_success_lem c auth user permission [] = refl
first_success_lem c auth user permission (s ∷ ss) = elim (check-cases c auth user s permission) [
  | inl passed ↦ rw passed refl
  | inr failed ↦ rw failed (first_success_lem c auth user permission ss)
]

-- With the catalog loaded, the owner passes, and so does anyone whose check passes in one of the
-- scopes, in whatever order they stand; all others get the 403 that names the permission, also
-- when there is no scope.
pub require_owner_or_lem :
    (c : PermissionCatalog) (auth : Authority) (user : VerifiedUser) (owner_id : Option ℕ)
    (permission : Permission) (scopes : List Scope)
    → require_owner_or (some c) auth user owner_id permission scopes ≡ (
        if is_at owner_id user.id || exists_row (passes (some c) auth user permission) scopes
        then ok tt
        else err (missing permission))
unfolding require_owner_or
require_owner_or_lem c auth user owner_id permission scopes =
    elim (Bool-cases (is_at owner_id user.id)) [
      | inl owner ↦ rw owner refl
      | inr other ↦ rw other (first_success_lem c auth user permission scopes)
    ]

verify-found :
    (user_id : ℕ) (auth : Authority) {row : UserRow}
    → fetch (λ (u : UserRow). u.id == user_id) auth.users ≡ some row
    → verify user_id auth ≡ ok (verified_of auth.now row)
unfolding verify get_verified
verify-found user_id auth found = rw (found, verify) refl

verify-missing :
    (user_id : ℕ) (auth : Authority)
    → fetch (λ (u : UserRow). u.id == user_id) auth.users ≡ none
    → verify user_id auth ≡ err (not_found "User not found")
unfolding verify get_verified
verify-missing user_id auth gone = rw (gone, verify) refl

-- The ban gate: 404 for an id without a row; 403 while a ban is in force, which is one that is set
-- and either has no end or an end that has not come; the verified user, not banned, otherwise.
pub verify_active_lem :
    (user_id : ℕ) (auth : Authority)
    → ((fetch (λ (u : UserRow). u.id == user_id) auth.users ≡ none)
        × (verify_active user_id auth ≡ err (not_found "User not found")))
      ⊎ ((row : UserRow) × (fetch (λ (u : UserRow). u.id == user_id) auth.users ≡ some row)
          × (verify_active user_id auth ≡ (
              if row.is_banned && still_banned auth.now row.banned_until
              then err (forbidden "User is banned")
              else ok (record { id = row.id; is_banned = false }))))
unfolding verify_active require_not_banned
verify_active_lem user_id auth =
    elim (Option-cases (fetch (λ (u : UserRow). u.id == user_id) auth.users)) [
      | inl gone ↦ inl (gone, rw (verify-missing user_id auth gone) refl)
      | inr (row, found) ↦ inr (
        row,
        found,
        rw (verify-found user_id auth found) elim (Bool-cases row.is_banned) [
          | inl banned ↦ rw banned (elim (Bool-cases (still_banned auth.now row.banned_until)) [
            | inl still ↦ rw still refl
            | inr over ↦ rw over refl
          ])
          | inr free ↦ rw free refl
        ],
      )
    ]
