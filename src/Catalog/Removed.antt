-- ===== src/Catalog/Removed.antt =====
-- ADR 0008 and 0010: what the deletion of an item leaves of the matches.
use ymatch.Common.{
  or-eq_true, ==_self, str_eq, ℕ, String, ◌≡◌, refl, inl, inr, Bool, true, false, ◌&&◌, ◌||◌,
  Option, none, some, List, [], ◌∷◌, ◌++◌, map, arith, ◌==◌, if◌then◌else◌, Bool-cases, select,
  fetch, exists_row, update, All,
}
use ymatch.Error.{ok}
use ymatch.Store.{cancelled, MatchRow, MatchItemRow, MerchRow, Db, is_active}
use ymatch.Store.Inventory.{any_of}
use ymatch.Store.Capacity.{
  group_scopes, ActiveMatchScope, scope_of, scope_requires_cancel, mutual_capacity, capacity_sum,
  is_cancelled_by, system_message, system_cancel_matches, cancel_after_merch_delete, collect_scopes,
  list_active_scopes_for_group, list_active_ids_referencing_merch,
}
use ymatch.Store.Capacity.Cancel.{Covers, cancel_clears}
use ymatch.Store.Capacity.Meaning.{scope_requires_cancel-false}
use ymatch.Lifecycle.Capacity.{CanTrade}
use ymatch.Common.Rows.{All-mono}
use ymatch.Catalog.{is_live, soft_deleted}
use ymatch.Catalog.Remove.{
  delete_by_id, delete_row, has_merch_id, soft_delete, cancel_reason_merch_deleted,
}

or_left : (a b : Bool) → a ≡ true → (a || b) ≡ true
or_left a b h = ground arith

any_of-append : (k : ℕ) (xs ys : List ℕ) → any_of k xs ≡ true → any_of k (xs ++ ys) ≡ true
unfolding any_of
any_of-append k [] ys h = ground arith
any_of-append k (x ∷ xs) ys h = ground (arith, any_of-append k xs ys)

any_of-append_last : (k : ℕ) (xs : List ℕ) → any_of k (xs ++ k ∷ []) ≡ true
unfolding any_of
any_of-append_last k [] = ground arith
any_of-append_last k (x ∷ xs) = ground (arith, any_of-append_last k xs)

abbrev grown : (ActiveMatchScope → Bool) → List ℕ → ActiveMatchScope → List ℕ
grown test ids s = if any_of s.id ids then ids else if test s then ids ++ s.id ∷ [] else ids

-- The loop keeps the ids that it starts from.
collect_scopes-keeps :
    (test : ActiveMatchScope → Bool) (k : ℕ) (ids : List ℕ) (ss : List ActiveMatchScope)
    → any_of k ids ≡ true
    → any_of k (collect_scopes test ids ss) ≡ true
unfolding collect_scopes
collect_scopes-keeps test k ids [] h = h
collect_scopes-keeps test k ids (s ∷ ss) h =
    collect_scopes-keeps test k (grown test ids s) ss (elim (Bool-cases (any_of s.id ids)) [
      | inl there ↦ rw there h
      | inr fresh ↦ elim (Bool-cases (test s)) [
        | inl picked ↦ rw fresh (rw picked (any_of-append k ids (s.id ∷ []) h))
        | inr passed ↦ rw fresh (rw passed h)
      ]
    ])

-- It adds each scope that the test picks.
collect_scopes-head :
    (test : ActiveMatchScope → Bool) (ids : List ℕ) (s : ActiveMatchScope)
    (ss : List ActiveMatchScope)
    → test s ≡ true
    → any_of s.id (collect_scopes test ids (s ∷ ss)) ≡ true
unfolding collect_scopes
collect_scopes-head test ids s ss picked =
    collect_scopes-keeps test s.id _ ss (elim (Bool-cases (any_of s.id ids)) [
      | inl there ↦ rw there there
      | inr fresh ↦ rw fresh (rw picked (any_of-append_last s.id ids))
    ])

abbrev in_scope : ℕ → String → MatchRow → Bool
in_scope event_id group_name r = r.event_id == event_id && str_eq r.group_name group_name

abbrev scopes_in : ℕ → String → List MatchRow → List ActiveMatchScope
scopes_in event_id group_name rs = map scope_of (
    select (λ r. r.event_id == event_id && str_eq r.group_name group_name && is_active r.status) rs)

collected-Covers :
    (test : ActiveMatchScope → Bool) (event_id : ℕ) (group_name : String) (list ids : List ℕ)
    (rs : List MatchRow)
    → ((k : ℕ)
        → any_of k (collect_scopes test ids (scopes_in event_id group_name rs)) ≡ true
        → any_of k list ≡ true)
    → Covers test (in_scope event_id group_name) list rs
unfolding select scope_of collect_scopes any_of
collected-Covers test event_id group_name list ids [] sub = tt
collected-Covers test event_id group_name list ids (r ∷ rs) sub =
    elim (Bool-cases
      (r.event_id == event_id && str_eq r.group_name group_name && is_active r.status)) [
        | inl live ↦ (
          λ _ t. sub r.id (
              rw live
                (collect_scopes-head test ids (scope_of r) (scopes_in event_id group_name rs) t)),
          collected-Covers test event_id group_name list (grown test ids (scope_of r)) rs
              (λ k h. sub k (rw live h)),
        )
        | inr dead ↦ (
          λ l t. absurd (ground arith),
          collected-Covers test event_id group_name list ids rs (λ k h. sub k (rw dead h)),
        )
      ]

abbrev has_leg : ℕ → List MatchItemRow → ℕ → Bool
has_leg merch_id legs match_id =
    exists_row (λ (i : MatchItemRow). i.match_id == match_id && i.merch_id == merch_id) legs

abbrev referencing : ℕ → List MatchItemRow → List MatchRow → List ℕ
referencing merch_id legs rs =
    map (λ (r : MatchRow). r.id) (select (λ r. is_active r.status && has_leg merch_id legs r.id) rs)

referencing-Covers :
    (merch_id : ℕ) (legs : List MatchItemRow) (list : List ℕ) (rs : List MatchRow)
    → ((k : ℕ) → any_of k (referencing merch_id legs rs) ≡ true → any_of k list ≡ true)
    → Covers (λ s. has_leg merch_id legs s.id) (λ r. true) list rs
unfolding select any_of scope_of
referencing-Covers merch_id legs list [] sub = tt
referencing-Covers merch_id legs list (r ∷ rs) sub =
    elim (Bool-cases (is_active r.status && has_leg merch_id legs r.id)) [
      | inl hit ↦ (
        λ _ _. sub r.id (rw hit (rw (==_self r.id) refl)),
        referencing-Covers merch_id legs list rs (λ k h. sub k (rw hit (or-eq_true _ _ h))),
      )
      | inr miss ↦ (
        λ live t. absurd (ground arith),
        referencing-Covers merch_id legs list rs (λ k h. sub k (rw miss h)),
      )
    ]

none_referencing :
    (merch_id : ℕ) (legs : List MatchItemRow) (rs : List MatchRow)
    → All
        (λ s. has_leg merch_id legs s.id ≡ false)
        (map scope_of (select (λ r. true && is_active r.status) rs))
    → referencing merch_id legs rs ≡ []
unfolding select scope_of
none_referencing merch_id legs [] h = refl
none_referencing merch_id legs (r ∷ rs) h = elim (Bool-cases (is_active r.status)) [
  | inl live ↦ let hs = rw live at h in rw live (rw hs.0 (none_referencing merch_id legs rs hs.1))
  | inr dead ↦ rw dead (none_referencing merch_id legs rs (rw dead at h))
]

abbrev without_merch : ℕ → Db → Db
without_merch merch_id db = record db {
  merchandise = update (has_merch_id merch_id) soft_delete db.merchandise;
}

abbrev to_cancel : ℕ → ℕ → Option String → Db → List ℕ
to_cancel merch_id event_id group_name db =
    collect_scopes (λ s. scope_requires_cancel s db) (list_active_ids_referencing_merch merch_id db)
      (group_scopes event_id group_name db)

abbrev cancelled_db : List ℕ → Db → Db
cancelled_db list db = record db {
  matches = update (is_cancelled_by list) (λ r. record r { status = cancelled }) db.matches;
  messages =
      db.messages
      ++ map (system_message cancel_reason_merch_deleted db.now)
          (select (is_cancelled_by list) db.matches);
}

none_live :
    (merch_id : ℕ) (rows : List MerchRow)
    → exists_row
        (λ m. has_merch_id merch_id m && is_live m)
        (update (has_merch_id merch_id) soft_delete rows)
      ≡ false
unfolding exists_row update
none_live merch_id [] = refl
none_live merch_id (m ∷ ms) = elim (Bool-cases (m.id == merch_id)) [
  | inl hit ↦ rw hit (rw hit (none_live merch_id ms))
  | inr miss ↦ rw miss (rw miss (none_live merch_id ms))
]

group-CanTrade :
    (list ids : List ℕ) (event_id : ℕ) (group_name : Option String) (db : Db)
    → ((k : ℕ)
        → any_of k (
            collect_scopes
              (λ s. scope_requires_cancel s db)
              ids
              (group_scopes event_id group_name db))
          ≡ true
        → any_of k list ≡ true)
    → All
        (CanTrade (cancelled_db list db))
        (group_scopes event_id group_name (cancelled_db list db))
unfolding list_active_scopes_for_group scope_requires_cancel mutual_capacity capacity_sum
group-CanTrade list ids event_id none db sub = tt
group-CanTrade list ids event_id (some group) db sub =
    All-mono (λ s. scope_requires_cancel s (cancelled_db list db) ≡ false)
      (CanTrade (cancelled_db list db)) _
      (λ s. scope_requires_cancel-false s (cancelled_db list db))
      (cancel_clears (λ s. scope_requires_cancel s db) (in_scope event_id group) list db.matches
        (λ r. refl)
        (collected-Covers (λ s. scope_requires_cancel s db) event_id group list ids db.matches sub))

-- The deletion of an item that is there never fails, and after it: no live row has its id, no active
-- match has a leg of it, and in every match of its group that is still active each side trades a live
-- item of the group that the other side wants.
pub delete_by_id-Removed :
    (merch_id : ℕ) (row : MerchRow) (db : Db)
    → fetch (has_merch_id merch_id) db.merchandise ≡ some row
    → (db' : Db) × (delete_by_id merch_id db ≡ ok (some soft_deleted, db'))
      × (exists_row (λ m. has_merch_id merch_id m && is_live m) db'.merchandise ≡ false)
      × (list_active_ids_referencing_merch merch_id db' ≡ [])
      × All (CanTrade db') (group_scopes row.event_id row.group_name db')
unfolding delete_by_id delete_row cancel_after_merch_delete system_cancel_matches
    list_active_ids_referencing_merch
delete_by_id-Removed merch_id row db there =
    let db1 = without_merch merch_id db in
    let list = to_cancel merch_id row.event_id row.group_name db1 in
    (
      cancelled_db list db1,
      rw there refl,
      none_live merch_id db.merchandise,
      none_referencing merch_id db.match_items _ (
          cancel_clears (λ s. has_leg merch_id db.match_items s.id) (λ r. true) list db.matches
            (λ r. refl)
            (referencing-Covers merch_id db.match_items list db.matches (λ k h.
              collect_scopes-keeps (λ s. scope_requires_cancel s db1) k
                (list_active_ids_referencing_merch merch_id db1)
                (group_scopes row.event_id row.group_name db1) h))),
      group-CanTrade list (list_active_ids_referencing_merch merch_id db1) row.event_id
          row.group_name db1 (λ k h. h),
    )
