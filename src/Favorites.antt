-- ===== src/Favorites.antt =====
-- backend/src/repositories/event_favorites.rs, group_favorites.rs and event_views.rs, and the list of events of
-- backend/src/repositories/event.rs. Rows stand in the order of their created_at.
pub mod Parity
use ymatch.Common.{
  str_eq, ℕ, zero, suc, ◌+◌, ◌-◌, ◌≤◌, ◌<◌, String, ◌≡◌, refl, sym, ap, ◌∙◌, ◌≢◌, ◌↔◌, ◌⊎◌, inl,
  inr, Bool, true, false, not, ◌&&◌, ◌||◌, Option, none, some, List, [], ◌∷◌, ◌++◌, map, arith,
  ◌==◌, if◌then◌else◌, Bool-cases, Option-cases, select, fetch, exists_row, update, delete, All,
}
use ymatch.Common.{length}
use ymatch.Common.Int.{pos, ltb_ℤ}
use ymatch.Error.{Result, ok, err, constraint_violation, ◌>>=◌}
use ymatch.Store.{Db, InventoryRow, MerchRow}
use ymatch.Rbac.{Authority, EventRow, GroupRow}
use ymatch.Rbac.Transfer.{known_user, has_event_id, has_group_name}
use ymatch.Rbac.Creation.{has_event, nonempty}
use ymatch.Rbac.Service.{is_at}

pub record EventMark : Type 0 where
  pub user_id : ℕ
  pub event_id : ℕ

pub record GroupMark : Type 0 where
  pub user_id : ℕ
  pub event_id : ℕ
  pub group_name : String

pub record Marks : Type 0 where
  pub event_favorites : List EventMark
  pub group_favorites : List GroupMark
  pub event_views : List EventMark

abbrev pub is_mark : ℕ → ℕ → EventMark → Bool
is_mark user_id event_id m = m.user_id == user_id && m.event_id == event_id

abbrev pub is_group_mark : ℕ → ℕ → String → GroupMark → Bool
is_group_mark user_id event_id group_name m =
    m.user_id == user_id && m.event_id == event_id && str_eq m.group_name group_name

-- The foreign keys of a row that is inserted.
abbrev pub known : ℕ → ℕ → Authority → Bool
known user_id event_id auth = known_user user_id auth && has_event event_id auth

-- `EventFavoritesRepository::toggle`
unfoldable pub toggle : ℕ → ℕ → Authority → Marks → Result (Bool × Marks)
toggle user_id event_id auth marks =
    if exists_row (is_mark user_id event_id) marks.event_favorites
    then ok (
      false,
      record marks { event_favorites = delete (is_mark user_id event_id) marks.event_favorites },
    )
    else if known user_id event_id auth
    then ok (
      true,
      record marks {
        event_favorites =
            marks.event_favorites ++ record { user_id = user_id; event_id = event_id } ∷ [];
      },
    )
    else err constraint_violation

-- `GroupFavoritesRepository::toggle`
unfoldable pub toggle_group : ℕ → ℕ → String → Authority → Marks → Result (Bool × Marks)
toggle_group user_id event_id group_name auth marks =
    if exists_row (is_group_mark user_id event_id group_name) marks.group_favorites
    then ok (
      false,
      record marks {
        group_favorites = delete (is_group_mark user_id event_id group_name) marks.group_favorites;
      },
    )
    else if known user_id event_id auth
    then ok (
      true,
      record marks {
        group_favorites =
            marks.group_favorites
            ++ record { user_id = user_id; event_id = event_id; group_name = group_name } ∷ [];
      },
    )
    else err constraint_violation

-- `register_view`
unfoldable pub register_view : ℕ → ℕ → Authority → Marks → Result Marks
register_view event_id user_id auth marks =
    if exists_row (is_mark user_id event_id) marks.event_views
    then ok marks
    else if known user_id event_id auth
    then ok (record marks {
      event_views = marks.event_views ++ record { user_id = user_id; event_id = event_id } ∷ [];
    })
    else err constraint_violation

abbrev only_marks : Result (Bool × Marks) → Result Marks
only_marks (ok (is_fav, marks)) = ok marks
only_marks (err e) = err e

-- The handlers of handlers/events.rs: the flag of the request is not read.
unfoldable pub toggle_favorite : ℕ → ℕ → Bool → Authority → Marks → Result Marks
unfolding toggle
toggle_favorite event_id user_id is_favorite auth marks =
    only_marks (toggle user_id event_id auth marks)

unfoldable pub toggle_favorite_group : ℕ → ℕ → String → Bool → Authority → Marks → Result Marks
unfolding toggle_group
toggle_favorite_group event_id user_id group_name is_favorite auth marks =
    only_marks (toggle_group user_id event_id group_name auth marks)

unfoldable pub register_event_view : ℕ → ℕ → Authority → Marks → Result Marks
unfolding register_view
register_event_view event_id user_id auth marks = register_view event_id user_id auth marks

-- `.filter(|s| !s.is_empty())`
abbrev pub filled : Option String → Option String
filled none = none
filled (some s) = nonempty s

-- ORDER BY created_at DESC
unfoldable pub latest_first {ℓ} : {A : Type ℓ} → List A → List A
latest_first [] = []
latest_first (x ∷ xs) = latest_first xs ++ x ∷ []

pub record FavoriteGroup : Type 0 where
  pub user_id : ℕ
  pub event_id : ℕ
  pub group_name : String
  pub event_name : Option String
  pub display_name : Option String

abbrev pub shown_name : Option GroupRow → Option String
shown_name none = none
shown_name (some g) = filled g.display_name

abbrev favorite_of : Authority → GroupMark → Option EventRow → List FavoriteGroup
favorite_of auth m none = []
favorite_of auth m (some e) =
    record {
      user_id = m.user_id;
      event_id = m.event_id;
      group_name = m.group_name;
      event_name = some e.name;
      display_name = shown_name (fetch (has_group_name m.event_id m.group_name) auth.groups);
    }
    ∷ []

unfoldable pub favorites_of : Authority → List GroupMark → List FavoriteGroup
favorites_of auth [] = []
favorites_of auth (m ∷ ms) =
    favorite_of auth m (fetch (has_event_id m.event_id) auth.events) ++ favorites_of auth ms

-- `list_for_user` of the favorite groups
unfoldable pub list_favorite_groups : ℕ → Authority → Marks → List FavoriteGroup
unfolding favorites_of latest_first
list_favorite_groups user_id auth marks =
    favorites_of auth
      (latest_first (select (λ (m : GroupMark). m.user_id == user_id) marks.group_favorites))

-- `Event` with its statistics.
pub record EventStats : Type 0 where
  pub event : EventRow
  pub unique_views : ℕ
  pub active_participants : ℕ
  pub is_favorite : Bool
  pub is_joined : Bool

-- inventory JOIN merchandise on the event, with a quantity above 0.
abbrev pub is_stocked_in : ℕ → Db → InventoryRow → Bool
is_stocked_in event_id db i =
    ltb_ℤ (pos 0) i.quantity
    && exists_row (λ (m : MerchRow). m.id == i.merch_id && m.event_id == event_id) db.merchandise

-- COUNT(DISTINCT user_id)
unfoldable pub count_users : List InventoryRow → ℕ
count_users [] = 0
count_users (i ∷ is) =
    let rest = count_users is in
    if exists_row (λ (j : InventoryRow). j.user_id == i.user_id) is then rest else suc rest

abbrev equals : Option ℕ → ℕ → Bool
equals none n = false
equals (some viewer) n = viewer == n

unfoldable pub stats_of : Option ℕ → Db → Marks → EventRow → EventStats
unfolding count_users
stats_of viewer_id db marks e = record {
  event = e;
  unique_views = length (select (λ (v : EventMark). v.event_id == e.id) marks.event_views);
  active_participants = count_users (select (is_stocked_in e.id db) db.inventory);
  is_favorite =
      exists_row (λ (f : EventMark). f.event_id == e.id && equals viewer_id f.user_id)
        marks.event_favorites;
  is_joined =
      exists_row (λ (i : InventoryRow). is_stocked_in e.id db i && equals viewer_id i.user_id)
        db.inventory;
}

abbrev viewer_is_creator : Option ℕ → EventRow → Bool
viewer_is_creator none e = false
viewer_is_creator (some viewer_id) e = is_at e.creator_id viewer_id

-- `list_with_stats`: published events, and the viewer's own drafts.
unfoldable pub list_with_stats : Option ℕ → Authority → Db → Marks → List EventStats
unfolding stats_of latest_first
list_with_stats viewer_id auth db marks = map (stats_of viewer_id db marks) (
    latest_first
      (select (λ e. str_eq e.status "published" || viewer_is_creator viewer_id e) auth.events))
