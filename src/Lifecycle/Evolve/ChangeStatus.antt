-- ===== src/Lifecycle/Evolve/ChangeStatus.antt =====
-- What a change of the status does to the rows.
use ymatch.Common.{ℕ, ◌≡◌, refl, sym, ◌∙◌, Bool, some, List, [], arith, ◌==◌}
use ymatch.Error.{ok}
use ymatch.Store.{Status, completed, accepted, rejected, MatchRow, Db, pure, ◌>>◌}
use ymatch.Store.Steps.{>>=-eq_ok, lift-eq_ok}
use ymatch.Store.Matches.{
  find_match, update_match, mark_completed, set_status, completed_by, snapshot_from_row,
}
use ymatch.Store.Matches.Lookup.{UniqueIds, find_match-updated}
use ymatch.Store.Matches.Evolve.{Moves-update_match}
use ymatch.Lifecycle.{Notice, run_action, change_locked, change_status, complete}
use ymatch.Lifecycle.Guards.{
  CompleteAction, complete_match, mark_self, validate_complete, validate_transition_target,
}
use ymatch.Lifecycle.Moves.{
  stamp_unless, mark_completed-eq_ok, accept-eq_ok, reject-eq_ok, change_status-eq_ok,
}
use ymatch.Lifecycle.RowMoves.{status-RowMove, open-RowMove, stamp-RowMove}
use ymatch.Lifecycle.Evolve.{Moved, Moved-trans, Moved-UniqueIds, update_match-Moved}

pub mark_completed-Moved :
    (match_id : ℕ) (is_user1 : Bool) (db db' : Db) {r : MatchRow} (u : Unit {0})
    → UniqueIds db.matches
    → find_match match_id db ≡ some r
    → r.status ≡ completed
    → mark_completed match_id is_user1 db ≡ ok (u, db')
    → Moved db db'
mark_completed-Moved match_id is_user1 db db' {r} u unique found done e =
    let (_, same) = mark_completed-eq_ok match_id is_user1 db db' r u unique found e in
    rw same (
      update_match-Moved match_id (λ x. stamp_unless is_user1 db.now x) db unique found
        (stamp-RowMove db.now r done is_user1))

mark_then-Moved :
    (match_id : ℕ) (is_user1 : Bool) (db db' : Db) {r : MatchRow} (ns : List Notice)
    → UniqueIds db.matches
    → find_match match_id db ≡ some r
    → r.status ≡ completed
    → (mark_completed match_id is_user1 >> pure {A = List Notice} []) db ≡ ok (ns, db')
    → Moved db db'
mark_then-Moved match_id is_user1 db db' ns unique found done e =
    let (u, db1, e1, e2) =
      >>=-eq_ok (mark_completed match_id is_user1) (λ _. pure {A = List Notice} []) db e in
    let same : db' ≡ db1 = ground arith in
    rw same (mark_completed-Moved match_id is_user1 db db1 u unique found done e1)

complete_action-Moved :
    (action : CompleteAction) (match_id user_id : ℕ) (db db' : Db) (r : MatchRow) (ns : List Notice)
    → UniqueIds db.matches
    → find_match match_id db ≡ some r
    → validate_complete r.status (completed_by (snapshot_from_row r) user_id) ≡ ok action
    → (run_action match_id action
          >> (mark_completed match_id (user_id == r.user1_id) >> pure {A = List Notice} []))
        db
      ≡ ok (ns, db')
    → Moved db db'
unfolding validate_complete set_status
complete_action-Moved complete_match match_id user_id db db' r ns unique found legal e =
    let change = λ (x : MatchRow). let y : MatchRow = record x { status = completed } in y in
    let first : Moved db (update_match match_id change db) =
      update_match-Moved match_id change db unique found (status-RowMove r completed (λ _. refl)) in
    Moved-trans db (update_match match_id change db) db' first (
      mark_then-Moved match_id (user_id == r.user1_id) (update_match match_id change db) db' ns
        (Moved-UniqueIds db (update_match match_id change db) first unique)
        (find_match-updated match_id change db r (λ x. refl) found) refl e)
complete_action-Moved mark_self match_id user_id db db' r ns unique found legal e =
    mark_then-Moved match_id (user_id == r.user1_id) db db' ns unique found (ground arith) e

change_locked-Moved :
    (s : Status) (match_id user_id : ℕ) (db db' : Db) (r : MatchRow) (ns : List Notice)
    → UniqueIds db.matches
    → find_match match_id db ≡ some r
    → validate_transition_target s ≡ ok tt
    → change_locked s match_id user_id (snapshot_from_row r) db ≡ ok (ns, db')
    → Moved db db'
unfolding change_locked validate_transition_target complete
change_locked-Moved completed match_id user_id db db' r ns unique found target e =
    let (action, legal, e1) =
      lift-eq_ok (validate_complete r.status (completed_by (snapshot_from_row r) user_id)) _ db e in
    complete_action-Moved action match_id user_id db db' r ns unique found legal e1
change_locked-Moved accepted match_id user_id db db' r ns unique found target e =
    let (status, other, same) = accept-eq_ok match_id user_id (snapshot_from_row r) db db' ns e in
    rw same (
      update_match-Moved match_id (λ x. record x { status = accepted }) db unique found
        (open-RowMove r accepted (λ e. absurd (let no = sym status ∙ e in cc))))
change_locked-Moved rejected match_id user_id db db' r ns unique found target e =
    let (status, same, next) = reject-eq_ok match_id (snapshot_from_row r) db db' ns e in
    (
      rw same (
          Moves-update_match match_id (λ x. record x { status = rejected }) db unique found
            (open-RowMove r rejected (λ e. absurd (ground arith)))),
      next,
    )
change_locked-Moved _ match_id user_id db db' r ns unique found target e = absurd (ground arith)

pub change_status-Moved :
    (match_id user_id : ℕ) (s : Status) (db db' : Db) (ns : List Notice)
    → UniqueIds db.matches
    → change_status match_id user_id s db ≡ ok (ns, db')
    → Moved db db'
change_status-Moved match_id user_id s db db' ns unique e =
    let (r, found, target, _, e1) = change_status-eq_ok match_id user_id s db db' ns e in
    change_locked-Moved s match_id user_id db db' r ns unique found target e1
