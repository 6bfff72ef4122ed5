-- ===== src/Store/Messages/Order.antt =====
-- The list of a match's messages after one more.
use ymatch.Common.Rows.{All-select}
use ymatch.Common.{
  leb, ==_self, ℕ, ◌≤◌, ◌≡◌, refl, ap, ◌∙◌, inl, inr, true, false, List, [], ◌∷◌, ◌++◌, arith, ◌==◌,
  Bool-cases, select, All,
}
use ymatch.Store.{MessageRow, Db}
use ymatch.Store.Messages.{insert_by_time, by_time, in_match, list_for_match}

insert_by_time-append :
    (x m : MessageRow) (ys : List MessageRow)
    → x.created_at ≤ m.created_at
    → insert_by_time x (ys ++ m ∷ []) ≡ insert_by_time x ys ++ m ∷ []
unfolding insert_by_time
insert_by_time-append x m [] h =
    let before : leb x.created_at m.created_at ≡ true = ground arith in rw before refl
insert_by_time-append x m (y ∷ ys) h = elim (Bool-cases (leb x.created_at y.created_at)) [
  | inl before ↦ rw before refl
  | inr after ↦ rw after (ap (◌∷◌ y) (insert_by_time-append x m ys h))
]

-- No message is later.
abbrev pub Before : ℕ → MessageRow → Type 0
Before now m = m.created_at ≤ now

by_time-append :
    (xs : List MessageRow) (m : MessageRow)
    → All (Before m.created_at) xs
    → by_time (xs ++ m ∷ []) ≡ by_time xs ++ m ∷ []
unfolding by_time insert_by_time
by_time-append [] m h = refl
by_time-append (x ∷ xs) m h =
    ap (insert_by_time x) (by_time-append xs m h.1) ∙ insert_by_time-append x m (by_time xs) h.0

select-append :
    (match_id : ℕ) (xs ys : List MessageRow)
    → select (in_match match_id) (xs ++ ys)
      ≡ select (in_match match_id) xs ++ select (in_match match_id) ys
unfolding select
select-append match_id [] ys = refl
select-append match_id (x ∷ xs) ys = elim (Bool-cases (x.match_id == match_id)) [
  | inl here ↦ rw here (ap (◌∷◌ x) (select-append match_id xs ys))
  | inr there ↦ rw there (select-append match_id xs ys)
]

pub list_for_match-here :
    (db : Db) (m : MessageRow)
    → All (Before m.created_at) db.messages
    → list_for_match m.match_id (record db { messages = db.messages ++ m ∷ [] })
      ≡ list_for_match m.match_id db ++ m ∷ []
unfolding list_for_match select
list_for_match-here db m earlier =
    ap by_time (select-append m.match_id db.messages (m ∷ []))
    ∙ rw (==_self m.match_id) (
        by_time-append (select (in_match m.match_id) db.messages) m
          (All-select (Before m.created_at) (in_match m.match_id) db.messages earlier))

pub list_for_match-elsewhere :
    (other : ℕ) (db : Db) (m : MessageRow)
    → (m.match_id == other) ≡ false
    → list_for_match other (record db { messages = db.messages ++ m ∷ [] })
      ≡ list_for_match other db
unfolding list_for_match select
list_for_match-elsewhere other db m differs =
    ap by_time (select-append other db.messages (m ∷ []))
    ∙ rw differs (ap by_time (append_nil (select (in_match other) db.messages)))
  where
    append_nil : (xs : List MessageRow) → xs ++ [] ≡ xs
    append_nil [] = refl
    append_nil (x ∷ xs) = ap (◌∷◌ x) (append_nil xs)
