-- ===== src/Matching/Cases.antt =====
-- The insert and the reopening of `ensure_match_for_pair`, each where it succeeds and where it fails.
use ymatch.Common.Rows.{All-mono, fetch-append_none, All-append, All-update, fetch-none}
use ymatch.Common.{
  ◌==◌, ◌≢◌, str_eq_self, ==_self, ℕ, suc, ◌<◌, String, ◌≡◌, refl, ◌∙◌, Bool, true, false, none,
  some, List, [], ◌∷◌, ◌++◌, arith, fetch, All,
}
use ymatch.Error.{constraint_violation, AppError, err, ok}
use ymatch.Store.{completed, after, Db, MatchRow, pending, is_reopenable}
use ymatch.Store.Matches.{has_id, find_match, update_match}
use ymatch.Store.Matches.Lookup.{UniqueIds, UniqueIds-update}
use ymatch.Store.Matches.Evolve.{
  Evolves, Evolves-add, Moves-Evolves, Moves-update_match, RowMove, IsSound,
}
use ymatch.Store.Matcher.{
  refers, has_room, of_pair_group, find_for_pair_group, insert_pending, reopen_terminal,
  reopened_row, reopen_row, new_match,
}
use ymatch.Matching.Pairs.{
  TwoUsers, UniquePairs, UniquePairs-add, UniquePairs-update, by_id, by_id-update,
}

-- The table of matches satisfies its primary key, the sequence behind it, and its unique index.
abbrev pub Indexed : Db → Type 0
Indexed db =
    UniqueIds db.matches
    × All (λ (r : MatchRow). r.id < db.next_match_id) db.matches
    × UniquePairs db.matches

-- What a call did: it created or reopened a row, which is now open and without a proposer, or it left
-- everything as it was because the row there is neither rejected nor cancelled.
abbrev pub Ensured : ℕ → ℕ → ℕ → String → Db → Bool → Db → Type 0
Ensured a b e g db true db' =
    (r : MatchRow) × (find_for_pair_group a b e g db' ≡ some r)
    × (r.status ≡ pending)
    × (r.offered_by ≡ none)
Ensured a b e g db false db' =
    (db' ≡ db)
    × ((r : MatchRow) × (find_for_pair_group a b e g db ≡ some r)
        × (is_reopenable r.status ≡ false))

UniqueIds-add :
    (s : MatchRow) (rs : List MatchRow)
    → All (λ (r : MatchRow). r.id < s.id) rs
    → UniqueIds rs
    → UniqueIds (rs ++ s ∷ [])
unfolding fetch
UniqueIds-add s [] below u = (refl, tt)
UniqueIds-add s (r ∷ rs) below u = (
  fetch-append_none (has_id r.id) rs (s ∷ []) u.0 ∙ ground (arith, below.0),
  UniqueIds-add s rs below.1 u.1,
)

-- The count of a row that may be opened again is not at the end of its type.
abbrev pub HasRoom : MatchRow → Type 0
HasRoom r = is_reopenable r.status ≡ true → has_room r ≡ true

abbrev pub SameTables : Db → Db → Type 0
SameTables db db' =
    (db'.users ≡ db.users)
    × (db'.event_ids ≡ db.event_ids)
    × (db'.merchandise ≡ db.merchandise)
    × (db'.inventory ≡ db.inventory)

-- What else a call does to the tables.
abbrev pub Passes : ℕ → ℕ → Db → Db → Type 0
Passes a b db db' =
    Evolves db.matches db'.matches
    × SameTables db db'
    × (All HasRoom db.matches → All HasRoom db'.matches)
    × ((a == b) ≡ false → TwoUsers db.matches → TwoUsers db'.matches)

abbrev inserted : ℕ → ℕ → ℕ → String → Db → Db
inserted a b e g db = record db {
  matches = db.matches ++ new_match a b e g db ∷ [];
  next_match_id = suc db.next_match_id;
}

own_pair : (a b e : ℕ) (g : String) (db : Db) → of_pair_group a b e g (new_match a b e g db) ≡ true
unfolding new_match
own_pair a b e g db = rw (==_self e, str_eq_self g, ==_self a, ==_self b) refl

new_match-IsSound : (a b e : ℕ) (g : String) (db : Db) → IsSound (new_match a b e g db)
unfolding new_match
new_match-IsSound a b e g db = record {
  completed1 = λ h. absurd (cc);
  completed2 = λ h. absurd (cc);
  applied1 = λ h. h;
  applied2 = λ h. h;
}

pub insert_case :
    (a b e : ℕ) (g : String) (db : Db)
    → Indexed db
    → find_for_pair_group a b e g db ≡ none
    → refers a b e db ≡ true
    → (insert_pending a b e g db ≡ ok (tt, inserted a b e g db))
      × Indexed (inserted a b e g db)
      × Ensured a b e g db true (inserted a b e g db)
      × Passes a b db (inserted a b e g db)
unfolding find_for_pair_group insert_pending new_match fetch
insert_case a b e g db (ids, fresh, pairs) gone known =
    let free = fetch-none (of_pair_group a b e g) db.matches gone in
    (
      rw (free, known) refl,
      (
        UniqueIds-add (new_match a b e g db) db.matches fresh ids,
        All-append _ db.matches _ (All-mono _ _ db.matches (λ r lt. omega arith) fresh)
            (omega arith, tt),
        UniquePairs-add (new_match a b e g db) db.matches free pairs,
      ),
      (
        new_match a b e g db,
        fetch-append_none (of_pair_group a b e g) db.matches _ gone ∙ rw (own_pair a b e g db) refl,
        refl,
        refl,
      ),
      (
        Evolves-add db.matches (new_match a b e g db) (new_match-IsSound a b e g db),
        (refl, refl, refl, refl),
        λ rooms. All-append HasRoom db.matches _ rooms ((λ terminal. absurd (cc)), tt),
        λ apart two.
            All-append (λ (r : MatchRow). (r.user1_id == r.user2_id) ≡ false) db.matches _ two
              (apart, tt),
      ),
    )

-- A reopened row was not completed.
reopened_row-RowMove :
    (r : MatchRow) (now : ℕ)
    → is_reopenable r.status ≡ true
    → RowMove r (reopened_row r.status now r)
unfolding reopened_row
reopened_row-RowMove r now terminal =
    let open_match : r.status ≢ completed = λ e. absurd (ground arith) in
    record {
      same_id = refl;
      same_user1 = refl;
      same_user2 = refl;
      same_event = refl;
      same_group = refl;
      stays_completed = λ e. absurd (open_match e);
      keeps_completed1 = λ t e. e;
      keeps_completed2 = λ t e. e;
      keeps_applied1 = λ t e. e;
      keeps_applied2 = λ t e. e;
      sound = λ h. record {
        completed1 = λ e. absurd (open_match (h.completed1 e));
        completed2 = λ e. absurd (open_match (h.completed2 e));
        applied1 = h.applied1;
        applied2 = h.applied2;
      };
    }

abbrev reopened : String → MatchRow → Db → Db
reopened reason r db = after db (reopen_row r.id r.status reason r db)

pub reopen_case :
    (a b e : ℕ) (g : String) (reason : String) (db : Db) (r : MatchRow)
    → Indexed db
    → find_for_pair_group a b e g db ≡ some r
    → is_reopenable r.status ≡ true
    → has_room r ≡ true
    → (reopen_terminal r.id r.status reason db ≡ ok (true, reopened reason r db))
      × Indexed (reopened reason r db)
      × Ensured a b e g db true (reopened reason r db)
      × Passes a b db (reopened reason r db)
unfolding find_for_pair_group reopen_terminal find_match reopen_row reopened_row update_match
reopen_case a b e g reason db r (ids, fresh, pairs) found terminal room =
    let change = reopened_row r.status db.now in
    (
      rw (by_id (of_pair_group a b e g) db.matches ids found, terminal, room) refl,
      (
        UniqueIds-update (has_id r.id) change db.matches (λ _. refl) ids,
        All-update (λ (x : MatchRow). x.id < db.next_match_id) (has_id r.id) change db.matches
            (λ _ _ lt. lt) fresh,
        UniquePairs-update (has_id r.id) change db.matches (λ _ _. refl) (λ _ _. refl) pairs,
      ),
      (
        change r,
        by_id-update (of_pair_group a b e g) change db.matches (λ _. refl) found,
        refl,
        refl,
      ),
      (
        Moves-Evolves (
            Moves-update_match r.id change db ids
              (by_id (of_pair_group a b e g) db.matches ids found)
              (reopened_row-RowMove r db.now terminal)),
        (refl, refl, refl, refl),
        λ rooms.
            All-update HasRoom (has_id r.id) change db.matches (λ x h room closed. absurd (cc))
              rooms,
        λ apart two.
            All-update (λ (x : MatchRow). (x.user1_id == x.user2_id) ≡ false) (has_id r.id) change
              db.matches (λ x h x_two. x_two) two,
      ),
    )

pub insert_unknown :
    (a b e : ℕ) (g : String) (db : Db)
    → find_for_pair_group a b e g db ≡ none
    → refers a b e db ≡ false
    → insert_pending a b e g db ≡ err constraint_violation
unfolding find_for_pair_group insert_pending
insert_unknown a b e g db gone unknown =
    rw (fetch-none (of_pair_group a b e g) db.matches gone, unknown) refl

pub reopen_full :
    (a b e : ℕ) (g : String) (reason : String) (db : Db) (r : MatchRow)
    → Indexed db
    → find_for_pair_group a b e g db ≡ some r
    → is_reopenable r.status ≡ true
    → has_room r ≡ false
    → reopen_terminal r.id r.status reason db ≡ err (AppError.internal "integer out of range")
unfolding find_for_pair_group reopen_terminal find_match reopen_row
reopen_full a b e g reason db r (ids, _, _) found terminal full =
    rw (by_id (of_pair_group a b e g) db.matches ids found, terminal, full) refl
