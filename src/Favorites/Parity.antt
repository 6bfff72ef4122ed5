-- ===== src/Favorites/Parity.antt =====
-- What toggles add up to.
use ymatch.Common.{
  ℕ, zero, suc, ◌≡◌, refl, ◌∙◌, inl, inr, Bool, true, false, not, ◌&&◌, ◌||◌, some, List, [], ◌∷◌,
  ◌++◌, arith, ◌==◌, if◌then◌else◌, Bool-cases, select, exists_row, delete,
}
use ymatch.Common.{length}
use ymatch.Common.Exists.{exists_row-append, exists_row-delete, exists_row-cong, exists_row-none}
use ymatch.Error.{Result, ok, err}
use ymatch.Store.{Db}
use ymatch.Rbac.{Authority, EventRow}
use ymatch.Favorites.{Marks, EventMark, is_mark, known, toggle_favorite, stats_of}

-- A request to toggle: the user, the event and the flag that the client sends.
pub record ToggleCall : Type 0 where
  pub user_id : ℕ
  pub event_id : ℕ
  pub is_favorite : Bool

abbrev or_same : Result Marks → Marks → Marks
or_same (ok marks') marks = marks'
or_same (err e) marks = marks

unfoldable pub toggle_all : Authority → List ToggleCall → Marks → Marks
unfolding toggle_favorite
toggle_all auth [] marks = marks
toggle_all auth (c ∷ cs) marks =
    toggle_all auth cs
      (or_same (toggle_favorite c.event_id c.user_id c.is_favorite auth marks) marks)

abbrev pub is_call : ℕ → ℕ → ToggleCall → Bool
is_call user_id event_id c = c.user_id == user_id && c.event_id == event_id

unfoldable pub is_odd : ℕ → Bool
is_odd zero = false
is_odd (suc n) = not (is_odd n)

-- What the list of events looks for.
abbrev looks_for : ℕ → ℕ → EventMark → Bool
looks_for viewer_id event_id f = f.event_id == event_id && viewer_id == f.user_id

module _ (viewer_id event_id : ℕ) where
  -- A toggle of the same pair looks at the rows that the list looks for.
  same-rows :
      (user_id id : ℕ) (rows : List EventMark)
      → (user_id == viewer_id && id == event_id) ≡ true
      → exists_row (is_mark user_id id) rows ≡ exists_row (looks_for viewer_id event_id) rows
  same-rows user_id id rows mine = exists_row-cong _ _ rows (λ m. ground arith)

  deleted_mine :
      (user_id id : ℕ) (rows : List EventMark)
      → (user_id == viewer_id && id == event_id) ≡ true
      → exists_row (looks_for viewer_id event_id) (delete (is_mark user_id id) rows) ≡ false
  deleted_mine user_id id rows mine =
      exists_row-delete (looks_for viewer_id event_id) (is_mark user_id id) rows
      ∙ exists_row-cong _ (λ _. false) rows (λ m. ground arith)
      ∙ exists_row-none rows

  deleted_other :
      (user_id id : ℕ) (rows : List EventMark)
      → (user_id == viewer_id && id == event_id) ≡ false
      → exists_row (looks_for viewer_id event_id) (delete (is_mark user_id id) rows)
        ≡ exists_row (looks_for viewer_id event_id) rows
  deleted_other user_id id rows other =
      exists_row-delete (looks_for viewer_id event_id) (is_mark user_id id) rows
      ∙ exists_row-cong _ _ rows (λ m. ground arith)

  appended :
      (user_id id : ℕ) (rows : List EventMark)
      → exists_row
          (looks_for viewer_id event_id)
          (rows ++ record { user_id = user_id; event_id = id } ∷ [])
        ≡ (exists_row (looks_for viewer_id event_id) rows
            || (user_id == viewer_id && id == event_id))
  unfolding exists_row
  appended user_id id rows = exists_row-append (looks_for viewer_id event_id) rows _ ∙ ground arith

  toggled :
      (auth : Authority) (c : ToggleCall) (marks : Marks)
      → known viewer_id event_id auth ≡ true
      → exists_row
          (looks_for viewer_id event_id)
          (or_same
            (toggle_favorite c.event_id c.user_id c.is_favorite auth marks)
            marks).event_favorites
        ≡ (if is_call viewer_id event_id c
            then not (exists_row (looks_for viewer_id event_id) marks.event_favorites)
            else exists_row (looks_for viewer_id event_id) marks.event_favorites)
  unfolding toggle_favorite
  toggled auth c marks there =
      let rows = marks.event_favorites in
      elim (Bool-cases (is_call viewer_id event_id c)) [
        | inl mine ↦
            let sees = same-rows c.user_id c.event_id rows mine in
            let user_is : c.user_id ≡ viewer_id = ground arith in
            let event_is : c.event_id ≡ event_id = ground arith in
            elim (Bool-cases (exists_row (looks_for viewer_id event_id) rows)) [
              | inl seen ↦
                  rw (mine, sees ∙ seen, seen) (deleted_mine c.user_id c.event_id rows mine)
              | inr unseen ↦
                  let fresh = appended viewer_id event_id rows in
                  rw (mine, sees ∙ unseen, unseen, user_is, event_is, there) (ground arith)
            ]
        | inr other ↦ elim (Bool-cases (exists_row (is_mark c.user_id c.event_id) rows)) [
          | inl gone ↦ rw (other, gone) (deleted_other c.user_id c.event_id rows other)
          | inr fresh ↦ elim (Bool-cases (known c.user_id c.event_id auth)) [
            | inl stored ↦
                rw (other, fresh, stored)
                  (let added = appended c.user_id c.event_id rows in ground arith)
            | inr refused ↦ rw (other, fresh, refused) refl
          ]
        ]
      ]

-- For a viewer and an event that both have a row, what the list of events shows as a favorite of the viewer
-- is what it was before, turned over once for each request of the viewer for that event: an even number of them
-- changes nothing, and requests for other pairs never do, even where they fail.
pub toggle_all-parity :
    (auth : Authority) (db : Db) (viewer_id : ℕ) (e : EventRow) (calls : List ToggleCall)
    (marks : Marks)
    → known viewer_id e.id auth ≡ true
    → (stats_of (some viewer_id) db (toggle_all auth calls marks) e).is_favorite ≡ (
        if is_odd (length (select (is_call viewer_id e.id) calls))
        then not (stats_of (some viewer_id) db marks e).is_favorite
        else (stats_of (some viewer_id) db marks e).is_favorite)
unfolding stats_of toggle_all is_odd select
toggle_all-parity auth db viewer_id e [] marks there = refl
toggle_all-parity auth db viewer_id e (c ∷ cs) marks there =
    toggle_all-parity auth db viewer_id e cs
      (or_same (toggle_favorite c.event_id c.user_id c.is_favorite auth marks) marks) there
    ∙ rw (toggled viewer_id e.id auth c marks there) (elim (Bool-cases (is_call viewer_id e.id c)) [
      | inl mine ↦ rw mine (ground arith)
      | inr other ↦ rw other refl
    ])
