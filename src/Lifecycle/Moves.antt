-- ===== src/Lifecycle/Moves.antt =====
-- The state machine of a match as a relation, and that the operations follow it.
use ymatch.Common.{
  refl, [], ℕ, ◌≡◌, ◌≢◌, ◌⊎◌, Bool, true, not, Option, none, some, List, arith, ◌==◌, if◌then◌else◌,
}
use ymatch.Error.{ok}
use ymatch.Store.{pure, ◌>>◌, Status, pending, offered, accepted, completed, rejected, MatchRow, Db}
use ymatch.Store.Matches.{
  completed_by, is_some, completed_column, delete_match_items, mark_completed, OfferItem,
  update_match, set_status, Snapshot, snapshot_from_row, find_match,
}
use ymatch.Store.Matches.Lookup.{
  UniqueIds-update_match, find_match-updated, locked-eq_ok, UniqueIds, exists_row-has_id,
}
use ymatch.Store.Steps.{>>=-eq_ok, lift-eq_ok}
use ymatch.Lifecycle.{
  run_action, complete, check_capacities, accept_gate, Notice, change_status, change_locked, accept,
  reject,
}
use ymatch.Lifecycle.Guards.{
  mark_self, complete_match, CompleteAction, validate_complete, validate_status_transition,
  proposer_or, is_participant, validate_transition_target, validate_participation,
}

-- The two sides of a match.
abbrev pub TakesPart : ℕ → MatchRow → Type 0
TakesPart user_id r = (user_id ≡ r.user1_id) ⊎ (user_id ≡ r.user2_id)

-- The proposer of what is on the table.
abbrev pub proposer : MatchRow → ℕ
proposer r = proposer_or r.offered_by r.user1_id

-- The caller's completion stamp.
abbrev pub completed_at : ℕ → MatchRow → Option ℕ
completed_at user_id r =
    if user_id == r.user1_id then r.user1_completed_at else r.user2_completed_at

abbrev pub stamp_completed : ℕ → ℕ → MatchRow → MatchRow
stamp_completed user_id now r =
    if user_id == r.user1_id
    then record r { user1_completed_at = some now }
    else record r { user2_completed_at = some now }

-- A change of status that a user may make, on the row before and after it.
pub data Move (user_id now : ℕ) (r r' : MatchRow) : Type 0 where
  accepts :
      r.status ≡ offered
      → user_id ≢ proposer r
      → r' ≡ record r { status = accepted }
      → Move user_id now r r'
  rejects :
      (r.status ≡ pending) ⊎ (r.status ≡ offered)
      → r' ≡ record r { status = rejected }
      → Move user_id now r r'
  completes :
      r.status ≡ accepted
      → r' ≡ stamp_completed user_id now (record r { status = completed })
      → Move user_id now r r'
  follows :
      r.status ≡ completed
      → completed_at user_id r ≡ none
      → r' ≡ stamp_completed user_id now r
      → Move user_id now r r'

participates :
    (user_id user1_id user2_id : ℕ) {u : Unit {0}}
    → validate_participation user_id user1_id user2_id ≡ ok u
    → is_participant user_id user1_id user2_id ≡ true
unfolding validate_participation
participates user_id user1_id user2_id e = ground arith

-- What `change_status` has been through when it succeeds.
pub change_status-eq_ok :
    (match_id user_id : ℕ) (s : Status) (db db' : Db) (ns : List Notice)
    → change_status match_id user_id s db ≡ ok (ns, db')
    → (r : MatchRow) × (find_match match_id db ≡ some r)
      × (validate_transition_target s ≡ ok tt)
      × (is_participant user_id r.user1_id r.user2_id ≡ true)
      × (change_locked s match_id user_id (snapshot_from_row r) db ≡ ok (ns, db'))
unfolding change_status
change_status-eq_ok match_id user_id s db db' ns e =
    let (_, target, e1) = lift-eq_ok (validate_transition_target s) _ db e in
    let (r, found, e2) = locked-eq_ok match_id _ _ db e1 in
    let (_, part, e3) = lift-eq_ok (validate_participation user_id r.user1_id r.user2_id) _ db e2 in
    (r, found, target, participates user_id r.user1_id r.user2_id part, e3)

-- The gate only reads.
pub check_capacities-same :
    (items : List OfferItem) (user1_id user2_id : ℕ) (db db' : Db) (u : Unit {0})
    → check_capacities items user1_id user2_id db ≡ ok (u, db')
    → db' ≡ db
unfolding check_capacities
check_capacities-same items user1_id user2_id db db' u e = ground arith

pub accept_gate-same :
    (match_id user_id : ℕ) (locked : Snapshot) (db db' : Db) (u : Unit {0})
    → accept_gate match_id user_id locked db ≡ ok (u, db')
    → (db' ≡ db) × (user_id ≢ proposer_or locked.offered_by locked.user1_id)
unfolding accept_gate
accept_gate-same match_id user_id locked db db' u e = grind (arith, check_capacities-same)

pub accept-eq_ok :
    (match_id user_id : ℕ) (locked : Snapshot) (db db' : Db) (ns : List Notice)
    → accept match_id user_id locked db ≡ ok (ns, db')
    → (locked.status ≡ offered)
      × (user_id ≢ proposer_or locked.offered_by locked.user1_id)
      × (db' ≡ update_match match_id (λ r. record r { status = accepted }) db)
unfolding accept validate_status_transition set_status
accept-eq_ok match_id user_id locked db db' ns e =
    let (_, legal, e1) = lift-eq_ok (validate_status_transition accepted locked.status) _ db e in
    let (_, db1, gate, e2) = >>=-eq_ok (accept_gate match_id user_id locked) _ db e1 in
    let (same, other) = accept_gate-same match_id user_id locked db db1 tt gate in
    (ground arith, other, ground (arith, same))

pub reject-eq_ok :
    (match_id : ℕ) (locked : Snapshot) (db db' : Db) (ns : List Notice)
    → reject match_id locked db ≡ ok (ns, db')
    → ((locked.status ≡ pending) ⊎ (locked.status ≡ offered))
      × (db'.matches ≡ (update_match match_id (λ r. record r { status = rejected }) db).matches)
      × (db'.next_match_id ≡ db.next_match_id)
unfolding reject validate_status_transition set_status delete_match_items update_match
reject-eq_ok match_id locked db db' ns e = ground arith

abbrev pub stamped : Bool → ℕ → MatchRow → MatchRow
stamped is_user1 now r =
    if is_user1
    then record r { user1_completed_at = some now }
    else record r { user2_completed_at = some now }

-- What `mark_completed` writes on a row.
abbrev pub stamp_unless : Bool → ℕ → MatchRow → MatchRow
stamp_unless is_user1 now r =
    if is_some (completed_column is_user1 r) then r else stamped is_user1 now r

pub mark_completed-eq_ok :
    (match_id : ℕ) (is_user1 : Bool) (db db' : Db) (r : MatchRow) (u : Unit {0})
    → UniqueIds db.matches
    → find_match match_id db ≡ some r
    → mark_completed match_id is_user1 db ≡ ok (u, db')
    → (completed_column is_user1 r ≡ none)
      × (db' ≡ update_match match_id (λ x. stamp_unless is_user1 db.now x) db)
unfolding mark_completed find_match
mark_completed-eq_ok match_id is_user1 db db' r u unique found e = ground (
  arith,
  exists_row-has_id match_id (λ (x : MatchRow). not (is_some (completed_column is_user1 x)))
      db.matches r unique found,
)

mark_completed-stamps :
    (match_id : ℕ) (is_user1 : Bool) (db db' : Db) (r : MatchRow) (ns : List Notice)
    → UniqueIds db.matches
    → find_match match_id db ≡ some r
    → (mark_completed match_id is_user1 >> pure {A = List Notice} []) db ≡ ok (ns, db')
    → (completed_column is_user1 r ≡ none)
      × (find_match match_id db' ≡ some (stamped is_user1 db.now r))
mark_completed-stamps match_id is_user1 db db' r ns unique found e =
    let (u, db1, e1, e2) = >>=-eq_ok (mark_completed match_id is_user1) _ db e in
    let (unset, same) = mark_completed-eq_ok match_id is_user1 db db1 r u unique found e1 in
    let done =
      find_match-updated match_id (stamp_unless is_user1 db.now) db r (λ x. ground arith) found in
    (unset, ground (arith, same, done))

-- What the two ways to complete leave.
complete_action-Move :
    (action : CompleteAction) (match_id user_id : ℕ) (db db' : Db) (r : MatchRow) (ns : List Notice)
    → UniqueIds db.matches
    → find_match match_id db ≡ some r
    → validate_complete r.status (completed_by (snapshot_from_row r) user_id) ≡ ok action
    → (run_action match_id action
          >> (mark_completed match_id (user_id == r.user1_id) >> pure {A = List Notice} []))
        db
      ≡ ok (ns, db')
    → (r' : MatchRow) × (find_match match_id db' ≡ some r') × Move user_id db.now r r'
unfolding validate_complete completed_by set_status update_match
complete_action-Move complete_match match_id user_id db db' r ns unique found legal e =
    let change = λ (x : MatchRow). let y : MatchRow = record x { status = completed } in y in
    let (_, done) =
      mark_completed-stamps match_id (user_id == r.user1_id) (update_match match_id change db) db'
        (change r) ns (UniqueIds-update_match match_id change db (λ x. refl) unique)
        (find_match-updated match_id change db r (λ x. refl) found) e in
    (_, done, Move.completes (ground arith) refl)
complete_action-Move mark_self match_id user_id db db' r ns unique found legal e =
    let (unset, done) =
      mark_completed-stamps match_id (user_id == r.user1_id) db db' r ns unique found e in
    (_, done, Move.follows (ground arith) unset refl)

complete-Move :
    (match_id user_id : ℕ) (db db' : Db) (r : MatchRow) (ns : List Notice)
    → UniqueIds db.matches
    → find_match match_id db ≡ some r
    → complete match_id user_id (snapshot_from_row r) db ≡ ok (ns, db')
    → (r' : MatchRow) × (find_match match_id db' ≡ some r') × Move user_id db.now r r'
unfolding complete
complete-Move match_id user_id db db' r ns unique found e =
    let (action, legal, e1) =
      lift-eq_ok (validate_complete r.status (completed_by (snapshot_from_row r) user_id)) _ db e in
    complete_action-Move action match_id user_id db db' r ns unique found legal e1

reject_find :
    (match_id : ℕ) (db db' : Db) (r : MatchRow)
    → db'.matches ≡ (update_match match_id (λ x. record x { status = rejected }) db).matches
    → find_match match_id db ≡ some r
    → find_match match_id db' ≡ some (let y : MatchRow = record r { status = rejected } in y)
unfolding find_match
reject_find match_id db db' r same found =
    rw same
      (find_match-updated match_id (λ x. record x { status = rejected }) db r (λ x. refl) found)

change_locked-Move :
    (s : Status) (match_id user_id : ℕ) (db db' : Db) (r : MatchRow) (ns : List Notice)
    → UniqueIds db.matches
    → find_match match_id db ≡ some r
    → validate_transition_target s ≡ ok tt
    → change_locked s match_id user_id (snapshot_from_row r) db ≡ ok (ns, db')
    → (r' : MatchRow) × (find_match match_id db' ≡ some r') × Move user_id db.now r r'
unfolding change_locked validate_transition_target
change_locked-Move completed match_id user_id db db' r ns unique found target e =
    complete-Move match_id user_id db db' r ns unique found e
change_locked-Move accepted match_id user_id db db' r ns unique found target e =
    let (status, other, same) = accept-eq_ok match_id user_id (snapshot_from_row r) db db' ns e in
    (
      _,
      rw same (find_match-updated match_id _ db r (λ x. refl) found),
      Move.accepts status other refl,
    )
change_locked-Move rejected match_id user_id db db' r ns unique found target e =
    let (status, same, _) = reject-eq_ok match_id (snapshot_from_row r) db db' ns e in
    (_, reject_find match_id db db' r same found, Move.rejects status refl)
change_locked-Move _ match_id user_id db db' r ns unique found target e = absurd (ground arith)

-- With unique match ids, every success of `change_status` is a move of the state machine by one of the
-- two participants: acceptance of an offer by the one who did not propose it, rejection of an open
-- match, completion of an accepted one, or the second completion of a completed one; the row after
-- it differs in the status and the caller's stamp alone.
pub change_status-Move :
    (match_id user_id : ℕ) (s : Status) (db db' : Db) (ns : List Notice)
    → UniqueIds db.matches
    → change_status match_id user_id s db ≡ ok (ns, db')
    → (r : MatchRow) × (r' : MatchRow) × (find_match match_id db ≡ some r)
      × (find_match match_id db' ≡ some r')
      × TakesPart user_id r
      × Move user_id db.now r r'
change_status-Move match_id user_id s db db' ns unique e =
    let (r, found, target, part, e1) = change_status-eq_ok match_id user_id s db db' ns e in
    let (r', found', move) =
      change_locked-Move s match_id user_id db db' r ns unique found target e1 in
    (r, r', found, found', ground arith, move)
