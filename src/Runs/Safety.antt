-- ===== src/Runs/Safety.antt =====
-- What holds along every run.
use ymatch.Common.{ℕ, ◌≡◌, some, All}
use ymatch.Store.{MatchRow, Db}
use ymatch.Store.Matches.{find_match}
use ymatch.Store.Matches.Evolve.{
  RowMove, Evolves, Evolves-trans, Evolves-fetch, Evolves-IsSound, IsSound, Moves-Evolves,
  Moves-refl,
}
use ymatch.Lifecycle.Evolve.{Moved, cancel_after_merch_delete-Moved}
use ymatch.Lifecycle.Evolve.ChangeStatus.{change_status-Moved}
use ymatch.Lifecycle.Evolve.Calls.{offer-Moved, apply_inventory-Moved, update_inventory-Moved}
use ymatch.Matching.Pairs.{TwoUsers, Moves-TwoUsers}
use ymatch.Matching.Cases.{Indexed}
use ymatch.Matching.Grown.{run_matching_algorithm-Evolves}
use ymatch.Runs.{Step, Run, offers, changes, applies, updates, pairs, cascades, ticks, here, next}
use ymatch.Runs.Keys.{Moved-Indexed}

-- What a run keeps of a state.
abbrev pub Grows : Db → Db → Type 0
Grows db db' =
    Indexed db' × Evolves db.matches db'.matches × (TwoUsers db.matches → TwoUsers db'.matches)

Moved-Grows : (db db' : Db) → Indexed db → Moved db db' → Grows db db'
Moved-Grows db db' indexed moved =
    (Moved-Indexed db db' moved indexed, Moves-Evolves moved.0, Moves-TwoUsers moved.0)

pub Step-Grows : (db db' : Db) → Step db db' → Indexed db → Grows db db'
Step-Grows db db' (offers m u items ns e) i =
    Moved-Grows db db' i (offer-Moved m u items db db' ns i.0 e)
Step-Grows db db' (changes m u s ns e) i =
    Moved-Grows db db' i (change_status-Moved m u s db db' ns i.0 e)
Step-Grows db db' (applies m u skip v e) i =
    Moved-Grows db db' i (apply_inventory-Moved m u skip db db' v i.0 e)
Step-Grows db db' (updates u m s q item e) i =
    Moved-Grows db db' i (update_inventory-Moved u m s q db db' item e)
Step-Grows db db' (cascades m ev g why v e) i =
    Moved-Grows db db' i (cancel_after_merch_delete-Moved m ev g why db db' v e)
Step-Grows db db' (ticks now e) i = rw e (i, Moves-Evolves (Moves-refl db.matches), λ two. two)
Step-Grows db db' (pairs n e) i = run_matching_algorithm-Evolves n db db' i e

pub Run-Grows : (db : Db) {db' : Db} → Run db db' → Indexed db → Grows db db'
Run-Grows db here i = (i, Moves-Evolves (Moves-refl db.matches), λ two. two)
Run-Grows db (next {a = a} {b = b} run last) i =
    let (keys, grown, two) = Run-Grows db run i in
    let (keys', grown', two') = Step-Grows a b last keys in
    (keys', Evolves-trans grown grown', λ apart. two' (two apart))

-- In every state that a run reaches, from one with the same: ids are unique and below the sequence, no
-- two matches are of one pair and group, only a completed match carries stamps of completion, and
-- only a side that has completed carries the mark of an applied inventory.
pub Run-IsSound :
    (db db' : Db)
    → Run db db'
    → Indexed db
    → All IsSound db.matches
    → Indexed db' × All IsSound db'.matches
Run-IsSound db db' run indexed sound =
    let (keys, grown, _) = Run-Grows db run indexed in (keys, Evolves-IsSound grown sound)

-- No call and no pass makes a match of a user with themselves.
pub Run-TwoUsers :
    (db db' : Db) → Run db db' → Indexed db → TwoUsers db.matches → TwoUsers db'.matches
Run-TwoUsers db db' run indexed two = (Run-Grows db run indexed).2 two

-- Along any run, which is of calls of `offer`, `change_status`, `apply_inventory` and `update_inventory`, passes
-- of the matcher, cascades of deleted items and the passage of time, and has no removal of a match or of a group
-- by an admin in it, a match stays there between the same users in the same group of the same event. Once it is
-- completed it stays completed, and a stamp of completion or mark of an applied inventory is never cleared or
-- moved.
pub Run-RowMove :
    (match_id : ℕ) (db db' : Db) (r : MatchRow)
    → Run db db'
    → Indexed db
    → find_match match_id db ≡ some r
    → (r' : MatchRow) × (find_match match_id db' ≡ some r') × RowMove r r'
unfolding find_match
Run-RowMove match_id db db' r run indexed found =
    Evolves-fetch match_id (Run-Grows db run indexed).1 found
