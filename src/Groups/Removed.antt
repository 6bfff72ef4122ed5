-- ===== src/Groups/Removed.antt =====
-- What a group that was removed leaves behind.
use ymatch.Common.{
  ℕ, String, ◌≡◌, refl, ◌∙◌, inl, inr, Bool, true, false, ◌&&◌, some, List, [], ◌∷◌, arith, ◌==◌,
  Bool-cases, fetch, exists_row, update, delete, All,
}
use ymatch.Common.Exists.{exists_row-delete, exists_row-cong, exists_row-none}
use ymatch.Store.{Db, MatchRow, MessageRow, MatchItemRow, MerchRow}
use ymatch.Rbac.{GroupRow}
use ymatch.Rbac.Transfer.{has_group_name}
use ymatch.Catalog.{is_live}
use ymatch.Groups.{
  World, match_in_group, merch_in_group, favorite_in_group, belongs, at_group, retire,
  without_group_db, without_group_auth, remove_for_admin,
}

abbrev has_match : List MatchRow → ℕ → Bool
has_match matches match_id = exists_row (λ (r : MatchRow). r.id == match_id) matches

-- The foreign keys of messages and legs.
pub record References (db : Db) : Type 0 where
  pub messages : All (λ (m : MessageRow). has_match db.matches m.match_id ≡ true) db.messages
  pub legs : All (λ (i : MatchItemRow). has_match db.matches i.match_id ≡ true) db.match_items

module _ {ℓ} {A : Type ℓ} where
  deleted-gone : (test : A → Bool) (rows : List A) → exists_row test (delete test rows) ≡ false
  deleted-gone test rows =
      exists_row-delete test test rows
      ∙ exists_row-cong _ (λ _. false) rows (λ r. ground arith)
      ∙ exists_row-none rows

  -- What is there and not in the group is there without the group.
  outside :
      (here inside : A → Bool) (rows : List A)
      → exists_row here rows ≡ true
      → exists_row (λ r. here r && inside r) rows ≡ false
      → exists_row here (delete inside rows) ≡ true
  unfolding exists_row delete
  outside here inside [] some_here none_inside = some_here
  outside here inside (r ∷ rs) some_here none_inside =
      let rest = outside here inside rs in
      elim (Bool-cases (inside r)) [
        | inl hit ↦ rw hit (rest (ground arith) (ground arith))
        | inr miss ↦ elim (Bool-cases (here r)) [
          | inl now ↦ rw (miss, now) refl
          | inr later ↦ rw (miss, later) (rest (ground arith) (ground arith))
        ]
      ]

-- The rows that are kept still have their matches.
kept-has_match :
    {A : Type 0} (event_id : ℕ) (group_name : String) (matches : List MatchRow) (match_of : A → ℕ)
    (rows : List A)
    → All (λ r. has_match matches (match_of r) ≡ true) rows
    → All
        (λ r. has_match (delete (match_in_group event_id group_name) matches) (match_of r) ≡ true)
        (delete (λ r. belongs event_id group_name matches (match_of r)) rows)
unfolding delete
kept-has_match event_id group_name matches match_of [] all = tt
kept-has_match event_id group_name matches match_of (r ∷ rs) all =
    let rest = kept-has_match event_id group_name matches match_of rs all.1 in
    elim (Bool-cases (belongs event_id group_name matches (match_of r))) [
      | inl hit ↦ rw hit rest
      | inr miss ↦ rw miss (
        outside (λ (m : MatchRow). m.id == match_of r) (match_in_group event_id group_name) matches
            all.0 miss,
        rest,
      )
    ]

retired-gone :
    (event_id : ℕ) (group_name : String) (rows : List MerchRow)
    → exists_row
        (λ m. merch_in_group event_id group_name m && is_live m)
        (update (merch_in_group event_id group_name) retire rows)
      ≡ false
unfolding exists_row update
retired-gone event_id group_name [] = refl
retired-gone event_id group_name (m ∷ ms) =
    let rest = retired-gone event_id group_name ms in
    elim (Bool-cases (merch_in_group event_id group_name m)) [
      | inl hit ↦ rw hit (ground arith)
      | inr miss ↦ rw (miss, miss) (ground arith)
    ]

-- The removal of a group that is there succeeds and leaves nothing of it to see: no row with its name, no
-- match and no favorite of it, no live item in it, and no role at its id. Every message and every leg that
-- is left belongs to a match that is left.
pub remove_for_admin-Removed :
    (event_id : ℕ) (group_name : String) (g : GroupRow) (world : World)
    → fetch (has_group_name event_id group_name) world.site.auth.groups ≡ some g
    → References world.site.db
    → (world' : World) × (remove_for_admin event_id group_name world ≡ (true, world'))
      × (exists_row (has_group_name event_id group_name) world'.site.auth.groups ≡ false)
      × (exists_row (match_in_group event_id group_name) world'.site.db.matches ≡ false)
      × (exists_row (favorite_in_group event_id group_name) world'.marks.group_favorites ≡ false)
      × (exists_row
            (λ m. merch_in_group event_id group_name m && is_live m)
            world'.site.db.merchandise
          ≡ false)
      × (exists_row (at_group g.id) world'.site.auth.user_roles ≡ false)
      × References world'.site.db
unfolding remove_for_admin
remove_for_admin-Removed event_id group_name g world there refs =
    let db = world.site.db in
    (
      record {
        site = record {
          auth = without_group_auth event_id group_name g.id world.site.auth;
          db = without_group_db event_id group_name db;
        };
        marks = record world.marks {
          group_favorites =
              delete (favorite_in_group event_id group_name) world.marks.group_favorites;
        };
      },
      rw there refl,
      deleted-gone (has_group_name event_id group_name) world.site.auth.groups,
      deleted-gone (match_in_group event_id group_name) db.matches,
      deleted-gone (favorite_in_group event_id group_name) world.marks.group_favorites,
      retired-gone event_id group_name db.merchandise,
      deleted-gone (at_group g.id) world.site.auth.user_roles,
      record {
        messages =
            kept-has_match event_id group_name db.matches (λ (m : MessageRow). m.match_id)
              db.messages refs.messages;
        legs =
            kept-has_match event_id group_name db.matches (λ (i : MatchItemRow). i.match_id)
              db.match_items refs.legs;
      },
    )
