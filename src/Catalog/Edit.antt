-- ===== src/Catalog/Edit.antt =====
-- `MerchandiseRepository::update`.
use ymatch.Common.{
  ℕ, String, Bool, not, ◌&&◌, ◌||◌, Option, none, some, List, ◌==◌, if◌then◌else◌, fetch,
  exists_row, update,
}
use ymatch.Error.{Result, ok, err, AppError, unique_violation, ◌>>◌}
use ymatch.Store.{MerchRow}
use ymatch.Store.Matches.{is_some}
use ymatch.Catalog.{
  group_text, Site, UpdateMerchRequest, Merchandise, name_conflict, live_named, violates_unique,
  group_description, is_live_at,
}

-- The columns that a patch sets.
abbrev pub or_old : Option String → String → String
or_old none old = old
or_old (some new) old = new

abbrev pub or_else : Option String → Option String → Option String
or_else none old = old
or_else (some new) old = some new

unfoldable pub patched : UpdateMerchRequest → MerchRow → MerchRow
patched req m = record m {
  name = or_old req.name m.name;
  photo_url = or_else req.photo_url m.photo_url;
  group_name = or_else req.group_name m.group_name;
}

unfoldable pub is_empty_patch : UpdateMerchRequest → Bool
is_empty_patch req = not (is_some req.name || is_some req.photo_url || is_some req.group_name)

-- The pre-check, of a rename or a move of a row that is live.
abbrev pub free_of_others : ℕ → MerchRow → Option String → List MerchRow → Result (Unit {0})
free_of_others event_id row none rows = ok tt
free_of_others event_id row (some group) rows =
    if exists_row (λ m. live_named event_id group row.name m && not (m.id == row.id)) rows
    then err (name_conflict row.name group)
    else ok tt

abbrev pub free_patch : ℕ → UpdateMerchRequest → Option MerchRow → List MerchRow → Result (Unit {0})
free_patch event_id req none rows = ok tt
free_patch event_id req (some m) rows =
    if is_some req.name || is_some req.group_name
    then free_of_others event_id (patched req m) (patched req m).group_name rows
    else ok tt

-- The error of a unique violation in the UPDATE: the names are known where the pre-check ran.
abbrev pub update_fault : UpdateMerchRequest → MerchRow → Option String → AppError
update_fault req row none = unique_violation
update_fault req row (some group) =
    if is_some req.name || is_some req.group_name
    then name_conflict row.name group
    else unique_violation

unfoldable pub update_row :
    ℕ → ℕ → UpdateMerchRequest → Option MerchRow → Site → Result (Option Merchandise × Site)
unfolding violates_unique patched group_description
update_row event_id merch_id req none site = ok (none, site)
update_row event_id merch_id req (some m) site =
    let row = patched req m in
    if violates_unique row site.db.merchandise
    then err (update_fault req row row.group_name)
    else ok (
      some (record { row = row; group_description = group_text row.group_name event_id site.auth }),
      record site {
        db = record site.db {
          merchandise = update (is_live_at event_id merch_id) (patched req) site.db.merchandise;
        };
      },
    )

-- `MerchandiseRepository::update`
unfoldable pub update_merch : ℕ → ℕ → UpdateMerchRequest → Site → Result (Option Merchandise × Site)
unfolding is_empty_patch update_row patched
update_merch event_id merch_id req site = do
  if is_empty_patch req then err (AppError.bad_request "No fields to update") else ok tt
  free_patch event_id req (fetch (is_live_at event_id merch_id) site.db.merchandise)
      site.db.merchandise
  update_row event_id merch_id req (fetch (is_live_at event_id merch_id) site.db.merchandise) site
