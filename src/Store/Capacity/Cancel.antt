-- ===== src/Store/Capacity/Cancel.antt =====
-- What the system's cancel leaves of the active matches that a test picks.
use ymatch.Common.{
  ℕ, ◌≡◌, inl, inr, Bool, true, false, ◌&&◌, List, [], ◌∷◌, map, arith, Bool-cases, select, update,
  All,
}
use ymatch.Store.{cancelled, MatchRow, is_active}
use ymatch.Store.Inventory.{any_of}
use ymatch.Store.Capacity.{ActiveMatchScope, scope_of, is_cancelled_by}

abbrev cancel_row : MatchRow → MatchRow
cancel_row r = record r { status = cancelled }

-- Every scope that the test picks has its id among `ids`.
abbrev pub Covers : (ActiveMatchScope → Bool) → (MatchRow → Bool) → List ℕ → List MatchRow → Type 0
Covers test mine ids =
    All (λ r.
      (mine r && is_active r.status) ≡ true → test (scope_of r) ≡ true → any_of r.id ids ≡ true)

kept :
    (test : ActiveMatchScope → Bool) (ids : List ℕ) (r : MatchRow)
    → is_cancelled_by ids r ≡ false
    → (test (scope_of r) ≡ true → any_of r.id ids ≡ true)
    → (is_active r.status ≡ true)
    → test (scope_of r) ≡ false
kept test ids r miss covered live = elim (Bool-cases (test (scope_of r))) [
  | inl picked ↦ absurd (ground (arith, covered picked))
  | inr free ↦ free
]

-- After the cancel no scope that is still active passes the test.
pub cancel_clears :
    (test : ActiveMatchScope → Bool) (mine : MatchRow → Bool) (ids : List ℕ) (rs : List MatchRow)
    → ((r : MatchRow) → mine (cancel_row r) ≡ mine r)
    → Covers test mine ids rs
    → All
        (λ s. test s ≡ false)
        (map scope_of
          (select (λ r. mine r && is_active r.status) (update (is_cancelled_by ids) cancel_row rs)))
unfolding select update
cancel_clears test mine ids [] keep c = tt
cancel_clears test mine ids (r ∷ rs) keep c =
    let rest = cancel_clears test mine ids rs keep c.1 in
    elim (Bool-cases (is_cancelled_by ids r)) [
      | inl hit ↦
          rw hit
            (rw (keep r) (elim (Bool-cases (mine r)) [ inl m ↦ rw m rest | inr m ↦ rw m rest ]))
      | inr miss ↦ rw miss (elim (Bool-cases (mine r && is_active r.status)) [
        | inl live ↦ rw live (kept test ids r miss (c.0 live) (ground arith), rest)
        | inr dead ↦ rw dead rest
      ])
    ]
