-- ===== src/Catalog/Lists.antt =====
-- The lists and the search of the repository. The table's rows stand in the order of their ids.
use ymatch.Common.{
  str_eq, ℕ, zero, suc, String, Bool, false, ◌&&◌, ◌||◌, Option, none, some, List, [], ◌∷◌, ◌++◌,
  map, ◌==◌, if◌then◌else◌, select, fetch,
}
use ymatch.Store.{MerchRow}
use ymatch.Rbac.{Authority, EventRow}
use ymatch.Rbac.Transfer.{has_event_id}
use ymatch.Rbac.Service.{is_at}
use ymatch.Catalog.{group_text, Site, Merchandise, is_live, is_live_at}

-- MERCH_SELECT
unfoldable pub select_merch : Authority → MerchRow → Merchandise
select_merch auth m = record {
  row = m;
  group_description = group_text m.group_name m.event_id auth;
}

unfoldable pub list_all : Site → List Merchandise
unfolding select_merch
list_all site = map (select_merch site.auth) (select is_live site.db.merchandise)

-- A NULL viewer equals nobody.
abbrev pub is_mine : Option ℕ → Option ℕ → Bool
is_mine creator none = false
is_mine creator (some viewer_id) = is_at creator viewer_id

unfoldable pub is_listed : ℕ → Option ℕ → MerchRow → Bool
is_listed event_id viewer_id m =
    m.event_id == event_id
    && is_live m
    && (str_eq m.status "published" || is_mine m.creator_id viewer_id)

unfoldable pub list_for_event : ℕ → Option ℕ → Site → List Merchandise
unfolding select_merch is_listed
list_for_event event_id viewer_id site =
    map (select_merch site.auth) (select (is_listed event_id viewer_id) site.db.merchandise)

abbrev merch_of : Authority → Option MerchRow → Option Merchandise
merch_of auth none = none
merch_of auth (some m) = some (select_merch auth m)

unfoldable pub get_by_id : ℕ → ℕ → Site → Option Merchandise
unfolding select_merch
get_by_id event_id merch_id site =
    merch_of site.auth (fetch (is_live_at event_id merch_id) site.db.merchandise)

pub record MerchSearchHit : Type 0 where
  pub id : ℕ
  pub name : String
  pub group_name : Option String
  pub photo_url : Option String
  pub event_id : ℕ
  pub event_name : String

-- `like` is ILIKE; a NULL column gives NULL, which selects nothing.
abbrev like_column : (String → Bool) → Option String → Bool
like_column like none = false
like_column like (some s) = like s

unfoldable pub is_hit : (String → Bool) → MerchRow → Bool
is_hit like m =
    (like m.name || like_column like m.group_name) && is_live m && str_eq m.status "published"

abbrev hit_of : MerchRow → Option EventRow → List MerchSearchHit
hit_of m none = []
hit_of m (some e) =
    if str_eq e.status "published"
    then record {
      id = m.id;
      name = m.name;
      group_name = m.group_name;
      photo_url = m.photo_url;
      event_id = m.event_id;
      event_name = e.name;
    }
      ∷ []
    else []

unfoldable pub hits : Authority → List MerchRow → List MerchSearchHit
hits auth [] = []
hits auth (m ∷ ms) = hit_of m (fetch (has_event_id m.event_id) auth.events) ++ hits auth ms

-- LIMIT
unfoldable pub take {ℓ} : {A : Type ℓ} → ℕ → List A → List A
take zero xs = []
take (suc n) [] = []
take (suc n) (x ∷ xs) = x ∷ take n xs

-- `search`: which hits the LIMIT keeps is the database's choice; here the first ones.
unfoldable pub search_merch : (String → Bool) → ℕ → Site → List MerchSearchHit
unfolding is_hit hits take
search_merch like limit site =
    take limit (hits site.auth (select (is_hit like) site.db.merchandise))
