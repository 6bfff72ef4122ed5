-- ===== src/Lifecycle/Evolve.antt =====
-- What each operation of the life cycle does to the rows of the matches.
pub mod ChangeStatus
pub mod Calls
use ymatch.Lifecycle.RowMoves.{open-RowMove}
use ymatch.Lifecycle.Once.{match_table}
use ymatch.Lifecycle.{cancel_zero_capacity_for_user}
use ymatch.Error.{ok}
use ymatch.Lifecycle.Moves.{stamp_unless}
use ymatch.Common.{
  ℕ, zero, suc, ◌+◌, ◌-◌, ◌≤◌, ◌<◌, String, ◌≡◌, refl, sym, ap, ◌∙◌, ◌≢◌, ◌↔◌, ◌⊎◌, inl, inr, Bool,
  true, false, not, ◌&&◌, ◌||◌, Option, none, some, List, [], ◌∷◌, ◌++◌, map, arith, ◌==◌,
  if◌then◌else◌, Bool-cases, Option-cases, select, fetch, exists_row, update, delete, All,
}
use ymatch.Common.Rows.{All-mono}
use ymatch.Store.{
  Status, pending, offered, accepted, completed, rejected, cancelled, MatchRow, Db, Tx, is_active,
  ◌>>=◌, ◌>>◌, pure,
}
use ymatch.Store.Matches.{
  is_some, has_id, find_match, update_match, set_status, set_offered_by, mark_completed,
  mark_inventory_applied,
}
use ymatch.Store.Matches.Lookup.{UniqueIds}
use ymatch.Store.Matches.Evolve.{
  IsSound, RowMove, RowMove-refl, Moves, Moves-refl, Moves-trans, Moves-update, Moves-update_match,
  Moves-UniqueIds,
}
use ymatch.Store.Steps.{>>=-eq_ok}
use ymatch.Store.Capacity.{is_cancelled_by, system_cancel_matches, cancel_after_merch_delete}

-- The table after an operation is the table before it, moved, and the sequence of ids is where it was.
abbrev pub Moved : Db → Db → Type 0
Moved db db' = Moves db.matches db'.matches × (db'.next_match_id ≡ db.next_match_id)

pub Moved-refl : (db : Db) → Moved db db
Moved-refl db = (Moves-refl db.matches, refl)

pub Moved-trans : (a b c : Db) → Moved a b → Moved b c → Moved a c
Moved-trans a b c f g = (Moves-trans f.0 g.0, g.1 ∙ f.1)

pub Moved-UniqueIds : (db db' : Db) → Moved db db' → UniqueIds db.matches → UniqueIds db'.matches
Moved-UniqueIds db db' f u = Moves-UniqueIds f.0 u

-- A table that is equal is moved by nothing.
pub same_table-Moved : (db db' : Db) → match_table db' ≡ match_table db → Moved db db'
same_table-Moved db db' e =
    let same : db'.matches ≡ db.matches = ap (λ (t : List MatchRow × ℕ). t.0) e in
    (rw same (Moves-refl db.matches), ap (λ (t : List MatchRow × ℕ). t.1) e)

cancel-RowMove :
    (ids : List ℕ) (r : MatchRow)
    → is_cancelled_by ids r ≡ true
    → RowMove r (record r { status = cancelled })
cancel-RowMove ids r hit = open-RowMove r cancelled (λ e. absurd (ground arith))

every_row : {P : MatchRow → Type 0} (rs : List MatchRow) → ((r : MatchRow) → P r) → All P rs
every_row [] f = tt
every_row (r ∷ rs) f = (f r, every_row rs f)

-- The system's cancel touches active matches only.
pub system_cancel-Moved :
    (ids : List ℕ) (reason : String) (db db' : Db) (n : ℕ)
    → system_cancel_matches ids reason db ≡ ok (n, db')
    → Moved db db'
unfolding system_cancel_matches
system_cancel-Moved ids reason db db' n e =
    let same : db'.matches
        ≡ update (is_cancelled_by ids) (λ x. record x { status = cancelled }) db.matches =
      ground arith in
    (
      rw same (
          Moves-update (is_cancelled_by ids) (λ x. record x { status = cancelled }) db.matches
            (every_row db.matches (cancel-RowMove ids))),
      ground arith,
    )

pub cancel_for_user-Moved :
    (user_id n : ℕ) (db db' : Db)
    → cancel_zero_capacity_for_user user_id db ≡ ok (n, db')
    → Moved db db'
unfolding cancel_zero_capacity_for_user
cancel_for_user-Moved user_id n db db' e = system_cancel-Moved _ "INVENTORY_CAPACITY" db db' n e

pub maybe_cancel-Moved :
    (changed : Bool) (user_id n : ℕ) (db db' : Db)
    → (if changed then cancel_zero_capacity_for_user user_id else pure 0) db ≡ ok (n, db')
    → Moved db db'
maybe_cancel-Moved true user_id n db db' e = cancel_for_user-Moved user_id n db db' e
maybe_cancel-Moved false user_id n db db' e =
    let same : db' ≡ db = ground arith in rw same (Moved-refl db)

cancel_list-Moved :
    (ids : List ℕ) (reason : String) (db db' : Db) (u : Unit {0})
    → (system_cancel_matches ids reason >>= λ count. pure tt) db ≡ ok (u, db')
    → Moved db db'
cancel_list-Moved ids reason db db' u e =
    let (n, db1, e1, e2) = >>=-eq_ok (system_cancel_matches ids reason) (λ count. pure tt) db e in
    let same : db' ≡ db1 = ground arith in rw same (system_cancel-Moved ids reason db db1 n e1)

pub cancel_after_merch_delete-Moved :
    (merch_id event_id : ℕ) (group_name : Option String) (reason : String) (db db' : Db)
    (u : Unit {0})
    → cancel_after_merch_delete merch_id event_id group_name reason db ≡ ok (u, db')
    → Moved db db'
unfolding cancel_after_merch_delete
cancel_after_merch_delete-Moved merch_id event_id group_name reason db db' u e =
    cancel_list-Moved _ reason db db' u e

-- An update by id, as a move of the table.
pub update_match-Moved :
    (match_id : ℕ) (change : MatchRow → MatchRow) (db : Db) {r : MatchRow}
    → UniqueIds db.matches
    → find_match match_id db ≡ some r
    → RowMove r (change r)
    → Moved db (update_match match_id change db)
unfolding update_match
update_match-Moved match_id change db u found move =
    (Moves-update_match match_id change db u found move, refl)
