-- ===== src/Matching/Ensure.antt =====
-- What `ensure_match_for_pair` does to the matches, on every branch.
use ymatch.Common.{
  ◌⊎◌, Bool-cases, ℕ, String, ◌≡◌, refl, ap, inl, inr, Bool, true, false, none, some, Option-cases,
}
use ymatch.Error.{constraint_violation, AppError, err, Result, ok}
use ymatch.Store.{cancelled, rejected, Status, Db, MatchRow, is_reopenable}
use ymatch.Store.Matches.Evolve.{Moves-Evolves, Moves-refl}
use ymatch.Store.Matcher.{refers, has_room, find_for_pair_group, reopen_terminal}
use ymatch.Matching.{
  reopen_with, reopen, ensure_match_for_pair, run_existing, existing_match_action,
  rematch_reason_for,
}
use ymatch.Matching.Cases.{
  Indexed, Ensured, Passes, insert_case, reopen_case, insert_unknown, reopen_full,
}

-- Why a call fails, and with what: the new row would have no user or event, or the count of the terminal row
-- is at the end of its type.
abbrev pub Refused : ℕ → ℕ → ℕ → String → Db → AppError → Type 0
Refused a b e g db fault =
    ((find_for_pair_group a b e g db ≡ none)
      × (refers a b e db ≡ false)
      × (fault ≡ constraint_violation))
    ⊎ ((r : MatchRow) × (find_for_pair_group a b e g db ≡ some r)
        × (is_reopenable r.status ≡ true)
        × (has_room r ≡ false)
        × (fault ≡ AppError.internal "integer out of range"))

abbrev pub Outcome : ℕ → ℕ → ℕ → String → Db → Result (Bool × Db) → Type 0
Outcome a b e g db (ok (made, db')) = Indexed db' × Ensured a b e g db made db' × Passes a b db db'
Outcome a b e g db (err fault) = Refused a b e g db fault

-- The `Reopen` arm on a row that was rejected or cancelled.
reopens :
    (a b e : ℕ) (g : String) (reason : String) (db : Db) (r : MatchRow)
    → Indexed db
    → find_for_pair_group a b e g db ≡ some r
    → is_reopenable r.status ≡ true
    → Outcome a b e g db (reopen_terminal r.id r.status reason db)
reopens a b e g reason db r indexed found terminal = elim (Bool-cases (has_room r)) [
  | inl room ↦
      let (runs, keys, done, grown) = reopen_case a b e g reason db r indexed found terminal room in
      rw runs (keys, done, grown)
  | inr full ↦
      rw (reopen_full a b e g reason db r indexed found terminal full)
        (inr (r, found, terminal, full, refl))
]

reopen_arm :
    (a b e : ℕ) (g : String) (reason : String) (db : Db) (r : MatchRow)
    → existing_match_action (some r.status) ≡ reopen
    → rematch_reason_for r.status ≡ some reason
    → run_existing a b e g (some r) (existing_match_action (some r.status)) db
      ≡ reopen_terminal r.id r.status reason db
reopen_arm a b e g reason db r action why = rw action (ap (λ w. reopen_with r w db) why)

skips :
    (a b e : ℕ) (g : String) (db : Db) (r : MatchRow)
    → Indexed db
    → find_for_pair_group a b e g db ≡ some r
    → is_reopenable r.status ≡ false
    → Outcome a b e g db (ok (false, db))
skips a b e g db r indexed found live = (
  indexed,
  (refl, (r, found, live)),
  (
    Moves-Evolves (Moves-refl db.matches),
    (refl, refl, refl, refl),
    (λ rooms. rooms),
    λ apart two. two,
  ),
)

found_case :
    (a b e : ℕ) (g : String) (db : Db) (r : MatchRow)
    → Indexed db
    → find_for_pair_group a b e g db ≡ some r
    → (s : Status) → r.status ≡ s
    → Outcome a b e g db (run_existing a b e g (some r) (existing_match_action (some r.status)) db)
unfolding existing_match_action rematch_reason_for
found_case a b e g db r indexed found rejected same =
    rw (reopen_arm a b e g "REMATCH_AFTER_REJECTED" db r (rw same refl) (rw same refl))
      (reopens a b e g "REMATCH_AFTER_REJECTED" db r indexed found (rw same refl))
found_case a b e g db r indexed found cancelled same =
    rw (reopen_arm a b e g "REMATCH_AFTER_CANCELLED" db r (rw same refl) (rw same refl))
      (reopens a b e g "REMATCH_AFTER_CANCELLED" db r indexed found (rw same refl))
found_case a b e g db r indexed found s same =
    rw same (skips a b e g db r indexed found (rw same refl))

pub ensure_match_for_pair-Outcome :
    (a b e : ℕ) (g : String) (db : Db)
    → Indexed db
    → Outcome a b e g db (ensure_match_for_pair a b e g db)
unfolding ensure_match_for_pair
ensure_match_for_pair-Outcome a b e g db indexed =
    elim (Option-cases (find_for_pair_group a b e g db)) [
      | inl gone ↦ rw gone (elim (Bool-cases (refers a b e db)) [
        | inl known ↦
            let (runs, keys, done, grown) = insert_case a b e g db indexed gone known in
            rw runs (keys, done, grown)
        | inr unknown ↦ rw (insert_unknown a b e g db gone unknown) (inl (gone, unknown, refl))
      ])
      | inr (r, found) ↦ rw found (found_case a b e g db r indexed found r.status refl)
    ]

abbrev pub Ended : ℕ → ℕ → ℕ → String → Db → Result (Bool × Db) → Type 0
Ended a b e g db (ok (made, db')) = Indexed db' × Ensured a b e g db made db'
Ended a b e g db (err fault) = Refused a b e g db fault

ended :
    (a b e : ℕ) (g : String) (db : Db) (result : Result (Bool × Db))
    → Outcome a b e g db result
    → Ended a b e g db result
ended a b e g db (ok (made, db')) (keys, done, _) = (keys, done)
ended a b e g db (err fault) refused = refused

-- On tables that satisfy their keys, `ensure_match_for_pair` ends in one of four ways, and keeps the keys. It
-- returns true, and the row of the pair and group is PENDING without a proposer. It returns false, nothing has
-- changed, and the row there is neither REJECTED nor CANCELLED. It fails with 400, and there is no such row,
-- and one of the users or the event does not exist. It fails with 500, and the row there is REJECTED or
-- CANCELLED with a count of rematches at the end of its type.
pub ensure_match_for_pair-Ensured :
    (a b e : ℕ) (g : String) (db : Db)
    → Indexed db
    → Ended a b e g db (ensure_match_for_pair a b e g db)
ensure_match_for_pair-Ensured a b e g db indexed =
    ended a b e g db _ (ensure_match_for_pair-Outcome a b e g db indexed)
