-- ===== src/Store/Matches/Lookup.antt =====
-- What the writes of write.rs do to the match that a lookup by id finds.
use mathlib.Core.Option
use ymatch.Common.{
  update, ℕ, ◌≡◌, refl, ap, ◌≢◌, inl, inr, Bool, false, ◌&&◌, none, some, List, [], ◌∷◌, arith,
  ◌==◌, Bool-cases, Option-cases, fetch, exists_row,
}
use ymatch.Common.Rows.{fetch-update_blind, fetch-update_self, fetch-update_other}
use ymatch.Error.{AppError, ok}
use ymatch.Store.{or_fail, ◌>>=◌, Tx, MatchRow, Db}
use ymatch.Store.Matches.{
  Snapshot, snapshot_from_row, lock_for_update, has_id, find_match, update_match,
}

pub find_match-update_match :
    (match_id : ℕ) (change : MatchRow → MatchRow) (db : Db)
    → ((r : MatchRow) → (change r).id ≡ r.id)
    → find_match match_id (update_match match_id change db)
      ≡ Option.map change (find_match match_id db)
unfolding find_match update_match
find_match-update_match match_id change db keep =
    fetch-update_self (has_id match_id) change db.matches (λ r. ap (λ n. n == match_id) (keep r))

pub find_match-update_match_ne :
    (match_id other_id : ℕ) (change : MatchRow → MatchRow) (db : Db)
    → ((r : MatchRow) → (change r).id ≡ r.id)
    → other_id ≢ match_id
    → find_match other_id (update_match match_id change db) ≡ find_match other_id db
unfolding find_match update_match
find_match-update_match_ne match_id other_id change db keep ne =
    fetch-update_other (has_id match_id) (has_id other_id) change db.matches
      (λ r hit. ground (arith, keep r))

-- The row that `lock_for_update(…)?.ok_or_else(…)?` goes on with.
pub locked-eq_ok :
    {B : Type 0} (match_id : ℕ) (fault : AppError) (f : Snapshot → Tx B) (db : Db) {x : B × Db}
    → (lock_for_update match_id >>= λ row. or_fail row fault >>= f) db ≡ ok x
    → (r : MatchRow) × (find_match match_id db ≡ some r) × (f (snapshot_from_row r) db ≡ ok x)
unfolding lock_for_update
locked-eq_ok match_id fault f db e = elim (Option-cases (find_match match_id db)) [
  | inl gone ↦ cc (rw gone at e)
  | inr (r, found) ↦ (r, found, rw found at e)
]

-- The ids of a table are a primary key.
abbrev pub UniqueIds : List MatchRow → Type 0
UniqueIds [] = Unit {0}
UniqueIds (r ∷ rs) = (fetch (has_id r.id) rs ≡ none) × UniqueIds rs

no_row_of_id :
    (match_id : ℕ) (t : MatchRow → Bool) (rs : List MatchRow)
    → fetch (has_id match_id) rs ≡ none
    → exists_row (λ r. has_id match_id r && t r) rs ≡ false
unfolding fetch exists_row
no_row_of_id match_id t [] h = refl
no_row_of_id match_id t (r ∷ rs) h = ground (arith, no_row_of_id match_id t rs)

-- A test of the rows with an id is a test of the one row.
pub exists_row-has_id :
    (match_id : ℕ) (t : MatchRow → Bool) (rs : List MatchRow) (r : MatchRow)
    → UniqueIds rs
    → fetch (has_id match_id) rs ≡ some r
    → exists_row (λ x. has_id match_id x && t x) rs ≡ t r
unfolding fetch exists_row
exists_row-has_id match_id t [] r u e = cc
exists_row-has_id match_id t (x ∷ rs) r u e = elim (Bool-cases (x.id == match_id)) [
  | inl hit ↦
      let same : x.id ≡ match_id = ground arith in
      let gone = no_row_of_id match_id t rs (rw (← same) u.0) in ground (arith, gone)
  | inr miss ↦ ground (arith, exists_row-has_id match_id t rs r u.1)
]

pub UniqueIds-update :
    (test : MatchRow → Bool) (change : MatchRow → MatchRow) (rs : List MatchRow)
    → ((r : MatchRow) → (change r).id ≡ r.id)
    → UniqueIds rs
    → UniqueIds (update test change rs)
unfolding update
UniqueIds-update test change [] keep u = tt
UniqueIds-update test change (r ∷ rs) keep u =
    let rest =
      fetch-update_blind test (has_id r.id) change rs (λ x. ap (λ n. n == r.id) (keep x)) u.0 in
    let ids = UniqueIds-update test change rs keep u.1 in
    elim (Bool-cases (test r)) [
      | inl hit ↦ rw hit (rw (keep r) rest, ids)
      | inr miss ↦ rw miss (rest, ids)
    ]

pub UniqueIds-update_match :
    (match_id : ℕ) (change : MatchRow → MatchRow) (db : Db)
    → ((r : MatchRow) → (change r).id ≡ r.id)
    → UniqueIds db.matches
    → UniqueIds (update_match match_id change db).matches
unfolding update_match
UniqueIds-update_match match_id change db keep u =
    UniqueIds-update (has_id match_id) change db.matches keep u

-- The row that an update by id leaves, when the row before it is known.
pub find_match-updated :
    (match_id : ℕ) (change : MatchRow → MatchRow) (db : Db) (r : MatchRow)
    → ((x : MatchRow) → (change x).id ≡ x.id)
    → find_match match_id db ≡ some r
    → find_match match_id (update_match match_id change db) ≡ some (change r)
find_match-updated match_id change db r keep found =
    rw (find_match-update_match match_id change db keep, found) refl
