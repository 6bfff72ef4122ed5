-- ===== src/Rbac.antt =====
-- The tables of the role model (backend/migrations, 20260705000000_rbac and after it), with those that
-- name an owner. `scope_type` is a data type of the texts that the code writes.
pub mod Permission
pub mod Catalog
pub mod Service
pub mod Decision
pub mod Owner
pub mod Transfer
pub mod Holders
pub mod Ownership
pub mod Members
pub mod Users
pub mod Creation
use ymatch.Common.{
  ℕ, zero, suc, ◌+◌, ◌-◌, ◌≤◌, ◌<◌, String, ◌≡◌, refl, sym, ap, ◌∙◌, ◌≢◌, ◌↔◌, ◌⊎◌, inl, inr, Bool,
  true, false, not, ◌&&◌, ◌||◌, Option, none, some, List, [], ◌∷◌, ◌++◌, map, arith, ◌==◌,
  if◌then◌else◌, Bool-cases, Option-cases, select, fetch, exists_row, update, delete, All,
}
use ymatch.Store.{UserRow}

pub data ScopeType : Type 0 where
  global event group : ScopeType

abbrev pub same_type : ScopeType → ScopeType → Bool
same_type global global = true
same_type event event = true
same_type group group = true
same_type _ _ = false

pub record RoleRow : Type 0 where
  pub id : ℕ
  pub scope_type : ScopeType
  pub name : String

pub record UserRoleRow : Type 0 where
  pub user_id : ℕ
  pub role_id : ℕ
  pub scope_type : ScopeType
  pub scope_id : Option ℕ

-- `role_permissions` joined with `permissions`.
pub record RolePermissionRow : Type 0 where
  pub role_id : ℕ
  pub name : String

pub record EventRow : Type 0 where
  pub id : ℕ
  pub name : String
  pub creator_id : Option ℕ
  pub status : String

pub record GroupRow : Type 0 where
  pub id : ℕ
  pub event_id : ℕ
  pub group_name : String
  pub created_by : Option ℕ
  pub description : String
  pub photo_url : Option String
  pub display_name : Option String

-- The part of the database that decides who may do what. The ids are the next values of the sequences.
pub record Authority : Type 0 where
  pub users : List UserRow
  pub roles : List RoleRow
  pub role_permissions : List RolePermissionRow
  pub user_roles : List UserRoleRow
  pub events : List EventRow
  pub groups : List GroupRow
  pub now : ℕ
  pub next_event_id : ℕ
  pub next_group_id : ℕ
