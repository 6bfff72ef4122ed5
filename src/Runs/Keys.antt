-- ===== src/Runs/Keys.antt =====
-- The keys of the matches along a run.
use ymatch.Common.{ℕ, ◌<◌, ◌≡◌, refl, ◌∙◌, List, exists_row, All}
use ymatch.Store.{MatchRow, Db}
use ymatch.Store.Matches.Evolve.{RowMove, Moves, Moves-UniqueIds}
use ymatch.Matching.Pairs.{UniquePairs, same_pair}
use ymatch.Matching.Cases.{Indexed}
use ymatch.Lifecycle.Evolve.{Moved}

same_pair-moved :
    (r r' s s' : MatchRow) → RowMove r r' → RowMove s s' → same_pair r' s' ≡ same_pair r s
same_pair-moved r r' s s' f g =
    rw
      (
        f.same_user1, f.same_user2, f.same_event, f.same_group, g.same_user1, g.same_user2,
        g.same_event, g.same_group,
      )
      refl

exists_row-same_pair :
    (r r' : MatchRow) {rs ss : List MatchRow}
    → RowMove r r'
    → Moves rs ss
    → exists_row (same_pair r') ss ≡ exists_row (same_pair r) rs
unfolding exists_row
exists_row-same_pair r r' f Moves.nil = refl
exists_row-same_pair r r' f (Moves.step {r = x} {s = y} g gs) =
    rw (same_pair-moved r r' x y f g, exists_row-same_pair r r' f gs) refl

Moves-UniquePairs : {rs ss : List MatchRow} → Moves rs ss → UniquePairs rs → UniquePairs ss
Moves-UniquePairs Moves.nil u = tt
Moves-UniquePairs (Moves.step {r = x} {s = y} f fs) u =
    (exists_row-same_pair x y f fs ∙ u.0, Moves-UniquePairs fs u.1)

Moves-below :
    (n : ℕ) {rs ss : List MatchRow}
    → Moves rs ss
    → All (λ (r : MatchRow). r.id < n) rs
    → All (λ (r : MatchRow). r.id < n) ss
Moves-below n Moves.nil h = tt
Moves-below n (Moves.step f fs) h = (rw f.same_id h.0, Moves-below n fs h.1)

-- A move of the table keeps its keys.
pub Moved-Indexed : (db db' : Db) → Moved db db' → Indexed db → Indexed db'
Moved-Indexed db db' (moves, next) (ids, below, pairs) = (
  Moves-UniqueIds moves ids,
  rw next (Moves-below db.next_match_id moves below),
  Moves-UniquePairs moves pairs,
)
