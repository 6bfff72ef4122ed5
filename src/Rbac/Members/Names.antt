-- ===== src/Rbac/Members/Names.antt =====
-- The role that a member is shown with.
use ymatch.Common.{
  str_eq_iff, leb, str_eq, ℕ, String, ◌≡◌, refl, ap, ◌∙◌, inl, inr, Bool, true, false, ◌&&◌, Option,
  none, some, List, [], ◌∷◌, arith, ◌==◌, if◌then◌else◌, Bool-cases, Option-cases, select, fetch,
  exists_row,
}
use ymatch.Rbac.{Authority, ScopeType, UserRoleRow, RoleRow}
use ymatch.Rbac.Members.{role_name, role_names, best, better, rank, first_name, in_scope_of}
use ymatch.Common.Exists.{exists_row-select}

abbrev is_named : String → String → Bool
is_named name other = str_eq other name

abbrev top_name : List String → Option String
top_name names =
    if exists_row (is_named "creator") names
    then some "creator"
    else if exists_row (is_named "editor") names
    then some "editor"
    else first_name names

abbrev pub named_role : Option RoleRow → String → Bool
named_role none name = false
named_role (some r) name = str_eq r.name name

zero_leb : (n : ℕ) → leb 0 n ≡ true
zero_leb n = ground arith

rank-creator : (name : String) → str_eq name "creator" ≡ false → leb (rank name) 0 ≡ false
rank-creator name h = rw h (elim (Bool-cases (str_eq name "editor")) [
  | inl editor ↦ rw editor refl
  | inr other ↦ rw other refl
])

one_leb-rank : (name : String) → str_eq name "creator" ≡ false → leb 1 (rank name) ≡ true
one_leb-rank name h = rw h (elim (Bool-cases (str_eq name "editor")) [
  | inl editor ↦ rw editor refl
  | inr other ↦ rw other refl
])

rank-other :
    (name : String) → str_eq name "creator" ≡ false → str_eq name "editor" ≡ false → rank name ≡ 2
rank-other name h k = rw (h, k) refl

better-creator : (o : Option String) → better "creator" o ≡ "creator"
better-creator none = refl
better-creator (some other) = rw (zero_leb (rank other)) refl

not_first :
    (name other : String) (names : List String)
    → exists_row (is_named other) (name ∷ names) ≡ false
    → str_eq name other ≡ false
unfolding exists_row
not_first name other names h = ground arith

better-editor :
    (names : List String)
    → exists_row (is_named "creator") names ≡ false
    → better "editor" (first_name names) ≡ "editor"
better-editor [] h = refl
better-editor (n ∷ ns) h = rw (one_leb-rank n (not_first n "creator" ns h)) refl

better-other :
    (name : String) (names : List String)
    → rank name ≡ 2
    → exists_row (is_named "creator") names ≡ false
    → exists_row (is_named "editor") names ≡ false
    → better name (first_name names) ≡ name
better-other name [] r h k = refl
better-other name (n ∷ ns) r h k =
    rw (r, rank-other n (not_first n "creator" ns h) (not_first n "editor" ns k)) refl

best_lem : (names : List String) → best names ≡ top_name names
unfolding best exists_row
best_lem [] = refl
best_lem (name ∷ names) = rw (best_lem names) (elim (Bool-cases (str_eq name "creator")) [
  | inl creator ↦
      rw creator
        (rw ((str_eq_iff name "creator").0 creator) (ap some (better-creator (top_name names))))
  | inr no_creator ↦ rw no_creator (elim (Bool-cases (exists_row (is_named "creator") names)) [
    | inl above ↦ rw above (rw (rank-creator name no_creator) refl)
    | inr none_above ↦ rw none_above (elim (Bool-cases (str_eq name "editor")) [
      | inl editor ↦ rw editor (
          rw ((str_eq_iff name "editor").0 editor)
            (elim (Bool-cases (exists_row (is_named "editor") names)) [
              | inl below ↦ rw below refl
              | inr none_below ↦ rw none_below (ap some (better-editor names none_above))
            ]))
      | inr no_editor ↦ rw no_editor (elim (Bool-cases (exists_row (is_named "editor") names)) [
        | inl below ↦ rw below (rw (rank-other name no_creator no_editor) refl)
        | inr none_below ↦ rw none_below (
            ap some (
              better-other name names (rank-other name no_creator no_editor) none_above none_below))
      ])
    ])
  ])
])

-- The row is one of the user's in the scope, for a role with the name.
abbrev pub has_role : Authority → ScopeType → ℕ → ℕ → String → UserRoleRow → Bool
has_role auth kind user_id scope_id name row =
    (row.user_id == user_id && in_scope_of kind scope_id row)
    && named_role (fetch (λ (r : RoleRow). r.id == row.role_id) auth.roles) name

exists_row-role_names :
    (auth : Authority) (name : String) (rows : List UserRoleRow)
    → exists_row (is_named name) (role_names auth rows)
      ≡ exists_row
          (λ row. named_role (fetch (λ (r : RoleRow). r.id == row.role_id) auth.roles) name)
          rows
unfolding exists_row role_names
exists_row-role_names auth name [] = refl
exists_row-role_names auth name (row ∷ rows) =
    elim (Option-cases (fetch (λ (r : RoleRow). r.id == row.role_id) auth.roles)) [
      | inl gone ↦ rw gone (exists_row-role_names auth name rows)
      | inr (r, found) ↦ rw found (rw (exists_row-role_names auth name rows) refl)
    ]

-- The rows of a user in a scope.
abbrev pub rows_of : ScopeType → ℕ → ℕ → Authority → List UserRoleRow
rows_of kind user_id scope_id auth =
    select (λ (row : UserRoleRow). row.user_id == user_id && in_scope_of kind scope_id row)
      auth.user_roles

-- A user who holds a role named creator in the scope is shown as creator, whatever else they hold and in
-- whatever order the rows stand; otherwise one who holds a role named editor as editor; otherwise
-- by the first role that they hold there, if any.
pub role_name-rank :
    (kind : ScopeType) (user_id scope_id : ℕ) (auth : Authority)
    → role_name kind user_id scope_id auth ≡ (
        if exists_row (has_role auth kind user_id scope_id "creator") auth.user_roles
        then some "creator"
        else if exists_row (has_role auth kind user_id scope_id "editor") auth.user_roles
        then some "editor"
        else first_name (role_names auth (rows_of kind user_id scope_id auth)))
unfolding role_name
role_name-rank kind user_id scope_id auth =
    let mine = rows_of kind user_id scope_id auth in
    let named : (name : String)
        → exists_row (is_named name) (role_names auth mine)
          ≡ exists_row (has_role auth kind user_id scope_id name) auth.user_roles =
      λ name. exists_row-role_names auth name mine ∙ exists_row-select _ _ auth.user_roles in
    best_lem (role_names auth mine) ∙ rw (named "creator", named "editor") refl
