-- ===== src/Catalog.antt =====
-- backend/src/repositories/merch.rs: the items of an event. The ILIKE of the search and Rust's `trim` are
-- parameters. `users` stands in both parts of a `Site`, as the engine and the gates each read them.
pub mod Create
pub mod Edit
pub mod Remove
pub mod Lists
pub mod Removed
pub mod Created
use ymatch.Common.{
  str_eq, ℕ, zero, suc, ◌+◌, ◌-◌, ◌≤◌, ◌<◌, String, ◌≡◌, refl, sym, ap, ◌∙◌, ◌≢◌, ◌↔◌, ◌⊎◌, inl,
  inr, Bool, true, false, not, ◌&&◌, ◌||◌, Option, none, some, List, [], ◌∷◌, ◌++◌, map, arith,
  ◌==◌, if◌then◌else◌, Bool-cases, Option-cases, select, fetch, exists_row, update, delete, All,
}
use ymatch.Error.{AppError}
use ymatch.Store.{MerchRow, Db}
use ymatch.Store.Matches.{in_group}
use ymatch.Rbac.{Authority, GroupRow}
use ymatch.Rbac.Transfer.{has_group_name}
use ymatch.Rbac.Creation.{nonempty}

-- The two parts of the database that a creation writes.
pub record Site : Type 0 where
  pub auth : Authority
  pub db : Db

-- `CreateMerchRequest` and `UpdateMerchRequest`
pub record CreateMerchRequest : Type 0 where
  pub name : String
  pub photo_url : Option String
  pub group_name : Option String
  pub creator_id : Option ℕ
  pub status : Option String

pub record UpdateMerchRequest : Type 0 where
  pub user_id : ℕ
  pub name : Option String
  pub photo_url : Option String
  pub group_name : Option String

-- `Merchandise`: the row with the description of its group.
pub record Merchandise : Type 0 where
  pub row : MerchRow
  pub group_description : Option String

pub data DeleteOutcome : Type 0 where
  soft_deleted : DeleteOutcome

unfoldable pub as_str : DeleteOutcome → String
as_str soft_deleted = "soft_deleted"

infixl 65 ◌<>◌
abbrev ◌<>◌ : String → String → String
s <> t = Prim.Native.String.◌++◌ s t

-- `map_name_conflict`, of the unique violation.
unfoldable pub name_conflict : String → String → AppError
name_conflict name group =
    AppError.bad_request
      ("a merch item named '" <> name <> "' already exists in group '" <> group <> "'")

abbrev pub is_live : MerchRow → Bool
is_live m = not m.is_deleted

-- WHERE event_id = $1 AND group_name = $2 AND name = $3 AND is_deleted = false
abbrev pub live_named : ℕ → String → String → MerchRow → Bool
live_named event_id group name m =
    m.event_id == event_id && in_group m.group_name group && str_eq m.name name && is_live m

-- uq_merchandise_live_name_per_group (event_id, group_name, name) WHERE is_deleted = false; a NULL group
-- meets no other.
abbrev group_taken : MerchRow → Option String → List MerchRow → Bool
group_taken row none rows = false
group_taken row (some group) rows =
    is_live row
    && exists_row (λ m. not (m.id == row.id) && live_named row.event_id group row.name m) rows

unfoldable pub violates_unique : MerchRow → List MerchRow → Bool
violates_unique row rows = group_taken row row.group_name rows

abbrev pub is_live_at : ℕ → ℕ → MerchRow → Bool
is_live_at event_id merch_id m = m.id == merch_id && m.event_id == event_id && is_live m

abbrev pub description_of : Option GroupRow → Option String
description_of none = none
description_of (some g) = nonempty g.description

unfoldable pub group_description : ℕ → String → Authority → Option String
group_description event_id group_name auth =
    description_of (fetch (has_group_name event_id group_name) auth.groups)

-- The LEFT JOIN with `merchandise_groups`, and the mapper, which makes an empty description None.
abbrev pub group_text : Option String → ℕ → Authority → Option String
group_text none event_id auth = none
group_text (some group) event_id auth = group_description event_id group auth
