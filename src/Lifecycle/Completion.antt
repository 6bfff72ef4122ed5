-- ===== src/Lifecycle/Completion.antt =====
-- A participant of an accepted match can complete it.
use ymatch.Common.{
  ℕ, ◌≡◌, refl, sym, ap, ◌∙◌, Bool, true, false, not, Option, none, some, [], arith, ◌==◌,
}
use ymatch.Error.{ok}
use ymatch.Store.{Status, accepted, completed, MatchRow, Db}
use ymatch.Store.Matches.{
  find_match, update_match, mark_completed, set_status, completed_by, completed_column, is_some,
  snapshot_from_row, lock_for_update,
}
use ymatch.Store.Matches.Lookup.{
  UniqueIds, UniqueIds-update_match, find_match-updated, exists_row-has_id,
}
use ymatch.Store.Matches.Evolve.{IsSound}
use ymatch.Lifecycle.{change_locked, change_status, complete}
use ymatch.Lifecycle.Guards.{
  is_participant, validate_complete, validate_transition_target, validate_participation,
}
use ymatch.Lifecycle.Moves.{stamp_unless, stamped, completed_at, stamp_completed}

mark_completed-runs :
    (match_id : ℕ) (is_user1 : Bool) (db : Db) (r : MatchRow)
    → UniqueIds db.matches
    → find_match match_id db ≡ some r
    → completed_column is_user1 r ≡ none
    → mark_completed match_id is_user1 db
      ≡ ok (tt, update_match match_id (stamp_unless is_user1 db.now) db)
unfolding mark_completed find_match
mark_completed-runs match_id is_user1 db r unique found unset =
    rw
      (exists_row-has_id match_id (λ (x : MatchRow). not (is_some (completed_column is_user1 x)))
        db.matches r unique found)
      (rw unset refl)

-- The side of the caller is not stamped, and the match is accepted, or completed by the other side.
pub data MayComplete (user_id : ℕ) (r : MatchRow) : Type 0 where
  first : r.status ≡ accepted → MayComplete user_id r
  second : r.status ≡ completed → completed_at user_id r ≡ none → MayComplete user_id r

no_stamp :
    (o : Option ℕ) (s : Status) → (is_some o ≡ true → s ≡ completed) → s ≡ accepted → o ≡ none
no_stamp none s h e = refl
no_stamp (some t) s h e = absurd (let no = sym e ∙ h refl in cc)

accepted-unset :
    (side : Bool) (r : MatchRow) → IsSound r → r.status ≡ accepted → completed_column side r ≡ none
accepted-unset true r h e = no_stamp _ r.status h.completed1 e
accepted-unset false r h e = no_stamp _ r.status h.completed2 e

column_at :
    (user_id : ℕ) (r : MatchRow)
    → completed_at user_id r ≡ completed_column (user_id == r.user1_id) r
column_at user_id r = refl

stamped_unset :
    (side : Bool) (now : ℕ) (r : MatchRow)
    → completed_column side r ≡ none
    → stamp_unless side now r ≡ stamped side now r
stamped_unset side now r e = rw e refl

not_completed_by :
    (user_id : ℕ) (r : MatchRow)
    → completed_at user_id r ≡ none
    → completed_by (snapshot_from_row r) user_id ≡ false
unfolding completed_by
not_completed_by user_id r e = ground arith

-- With unique ids and a sound row, a participant of a match that is accepted, or that the other side
-- alone has completed, can complete it: the call succeeds, and leaves the match COMPLETED with the
-- caller's stamp, the rest of its row as it was.
pub change_status-MayComplete :
    (match_id user_id : ℕ) (db : Db) (r : MatchRow)
    → UniqueIds db.matches
    → IsSound r
    → find_match match_id db ≡ some r
    → is_participant user_id r.user1_id r.user2_id ≡ true
    → MayComplete user_id r
    → (db' : Db) × (change_status match_id user_id completed db ≡ ok ([], db'))
      × (find_match match_id db'
          ≡ some (stamp_completed user_id db.now (record r { status = completed })))
unfolding change_status validate_transition_target lock_for_update validate_participation
    change_locked complete completed_by validate_complete set_status update_match
change_status-MayComplete match_id user_id db r unique sound found part (first e) =
    let side = user_id == r.user1_id in
    let set = λ (x : MatchRow). let y : MatchRow = record x { status = completed } in y in
    let db1 = update_match match_id set db in
    let found1 = find_match-updated match_id set db r (λ x. refl) found in
    let unset : completed_column side (set r) ≡ none = accepted-unset side r sound e in
    let runs =
      mark_completed-runs match_id side db1 (set r)
        (UniqueIds-update_match match_id set db (λ x. refl) unique) found1 unset in
    (
      update_match match_id (stamp_unless side db1.now) db1,
      rw (found, part, e) (rw runs refl),
      find_match-updated match_id (stamp_unless side db1.now) db1 (set r) (λ x. ground arith) found1
          ∙ ap some (stamped_unset side db1.now (set r) unset),
    )
change_status-MayComplete match_id user_id db r unique sound found part (second e unset) =
    let side = user_id == r.user1_id in
    let runs = mark_completed-runs match_id side db r unique found unset in
    let open_side = not_completed_by user_id r unset in
    let same : r ≡ record r { status = completed } =
      ap (λ (s : Status). let y : MatchRow = record r { status = s } in y) e in
    (
      update_match match_id (stamp_unless side db.now) db,
      rw (found, part, e) (rw open_side (rw runs refl)),
      find_match-updated match_id (stamp_unless side db.now) db r (λ x. ground arith) found
          ∙ ap some (stamped_unset side db.now r unset ∙ ap (stamped side db.now) same),
    )
