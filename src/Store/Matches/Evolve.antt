-- ===== src/Store/Matches/Evolve.antt =====
-- How the rows of the `matches` table may change in place: what a write keeps of every row.
use ymatch.Common.Rows.{All-mono}
use ymatch.Store.Matches.Lookup.{UniqueIds}
use ymatch.Common.{
  ==_iff, sym, none, ℕ, ◌≡◌, refl, ◌∙◌, inl, inr, Bool, true, some, List, [], ◌∷◌, ◌++◌, arith,
  ◌==◌, Bool-cases, fetch, update, All,
}
use ymatch.Store.{Db, completed, MatchRow}
use ymatch.Store.Matches.{update_match, find_match, is_some, has_id}

-- The stamps of a row agree with its status: only a completed match carries completion stamps, and
-- inventory is applied only by a side that has completed.
pub record IsSound (r : MatchRow) : Type 0 where
  pub completed1 : is_some r.user1_completed_at ≡ true → r.status ≡ completed
  pub completed2 : is_some r.user2_completed_at ≡ true → r.status ≡ completed
  pub applied1 : is_some r.user1_inventory_applied_at ≡ true → is_some r.user1_completed_at ≡ true
  pub applied2 : is_some r.user2_inventory_applied_at ≡ true → is_some r.user2_completed_at ≡ true

-- What every write keeps: the pair and its group, completion as the last status, the stamps once they
-- are set, and soundness.
pub record RowMove (r r' : MatchRow) : Type 0 where
  pub same_id : r'.id ≡ r.id
  pub same_user1 : r'.user1_id ≡ r.user1_id
  pub same_user2 : r'.user2_id ≡ r.user2_id
  pub same_event : r'.event_id ≡ r.event_id
  pub same_group : r'.group_name ≡ r.group_name
  pub stays_completed : r.status ≡ completed → r'.status ≡ completed
  pub keeps_completed1 : (t : ℕ) → r.user1_completed_at ≡ some t → r'.user1_completed_at ≡ some t
  pub keeps_completed2 : (t : ℕ) → r.user2_completed_at ≡ some t → r'.user2_completed_at ≡ some t
  pub keeps_applied1 :
      (t : ℕ) → r.user1_inventory_applied_at ≡ some t → r'.user1_inventory_applied_at ≡ some t
  pub keeps_applied2 :
      (t : ℕ) → r.user2_inventory_applied_at ≡ some t → r'.user2_inventory_applied_at ≡ some t
  pub sound : IsSound r → IsSound r'

pub RowMove-refl : (r : MatchRow) → RowMove r r
RowMove-refl r = record {
  same_id = refl;
  same_user1 = refl;
  same_user2 = refl;
  same_event = refl;
  same_group = refl;
  stays_completed = λ e. e;
  keeps_completed1 = λ t e. e;
  keeps_completed2 = λ t e. e;
  keeps_applied1 = λ t e. e;
  keeps_applied2 = λ t e. e;
  sound = λ s. s;
}

pub RowMove-trans : (r s t : MatchRow) → RowMove r s → RowMove s t → RowMove r t
RowMove-trans r s t f g = record {
  same_id = g.same_id ∙ f.same_id;
  same_user1 = g.same_user1 ∙ f.same_user1;
  same_user2 = g.same_user2 ∙ f.same_user2;
  same_event = g.same_event ∙ f.same_event;
  same_group = g.same_group ∙ f.same_group;
  stays_completed = λ e. g.stays_completed (f.stays_completed e);
  keeps_completed1 = λ n e. g.keeps_completed1 n (f.keeps_completed1 n e);
  keeps_completed2 = λ n e. g.keeps_completed2 n (f.keeps_completed2 n e);
  keeps_applied1 = λ n e. g.keeps_applied1 n (f.keeps_applied1 n e);
  keeps_applied2 = λ n e. g.keeps_applied2 n (f.keeps_applied2 n e);
  sound = λ h. g.sound (f.sound h);
}

-- The same rows in the same places, each changed by a move.
pub data Moves : List MatchRow → List MatchRow → Type 0 where
  nil : Moves [] []
  step :
      {r s : MatchRow} {rs ss : List MatchRow} → RowMove r s → Moves rs ss → Moves (r ∷ rs) (s ∷ ss)

pub Moves-refl : (rs : List MatchRow) → Moves rs rs
Moves-refl [] = nil
Moves-refl (r ∷ rs) = step (RowMove-refl r) (Moves-refl rs)

pub Moves-trans : {rs ss ts : List MatchRow} → Moves rs ss → Moves ss ts → Moves rs ts
Moves-trans nil nil = nil
Moves-trans (step f fs) (step g gs) = step (RowMove-trans _ _ _ f g) (Moves-trans fs gs)

-- An update whose change is a move on each row that it touches.
pub Moves-update :
    (test : MatchRow → Bool) (change : MatchRow → MatchRow) (rs : List MatchRow)
    → All (λ r. test r ≡ true → RowMove r (change r)) rs
    → Moves rs (update test change rs)
unfolding update
Moves-update test change [] h = nil
Moves-update test change (r ∷ rs) h = elim (Bool-cases (test r)) [
  | inl hit ↦ rw hit (step (h.0 hit) (Moves-update test change rs h.1))
  | inr miss ↦ rw miss (step (RowMove-refl r) (Moves-update test change rs h.1))
]

-- Rows that were there, moved, and new rows after them.
pub data Evolves : List MatchRow → List MatchRow → Type 0 where
  new : {ss : List MatchRow} → All IsSound ss → Evolves [] ss
  step :
      {r s : MatchRow} {rs ss : List MatchRow}
      → RowMove r s
      → Evolves rs ss
      → Evolves (r ∷ rs) (s ∷ ss)

pub Moves-Evolves : {rs ss : List MatchRow} → Moves rs ss → Evolves rs ss
Moves-Evolves nil = Evolves.new tt
Moves-Evolves (Moves.step f fs) = Evolves.step f (Moves-Evolves fs)

pub Evolves-add : (rs : List MatchRow) (s : MatchRow) → IsSound s → Evolves rs (rs ++ s ∷ [])
Evolves-add [] s h = Evolves.new (h, tt)
Evolves-add (r ∷ rs) s h = Evolves.step (RowMove-refl r) (Evolves-add rs s h)

pub Evolves-IsSound : {rs ss : List MatchRow} → Evolves rs ss → All IsSound rs → All IsSound ss
Evolves-IsSound (Evolves.new h) u = h
Evolves-IsSound (Evolves.step f fs) h = (f.sound h.0, Evolves-IsSound fs h.1)

pub Evolves-trans : {rs ss ts : List MatchRow} → Evolves rs ss → Evolves ss ts → Evolves rs ts
Evolves-trans (Evolves.new h) g = Evolves.new (Evolves-IsSound g h)
Evolves-trans (Evolves.step f fs) (Evolves.step g gs) =
    Evolves.step (RowMove-trans _ _ _ f g) (Evolves-trans fs gs)

-- A match that is there stays there, moved.
pub Evolves-fetch :
    (match_id : ℕ) {rs ss : List MatchRow} {r : MatchRow}
    → Evolves rs ss
    → fetch (has_id match_id) rs ≡ some r
    → (s : MatchRow) × (fetch (has_id match_id) ss ≡ some s) × RowMove r s
unfolding fetch
Evolves-fetch match_id (Evolves.new h) found = absurd (cc)
Evolves-fetch match_id {r = r} (Evolves.step {r = x} {s = y} f fs) found =
    elim (Bool-cases (x.id == match_id)) [
      | inl hit ↦ let same : x ≡ r = ground arith in (y, rw (f.same_id, hit) refl, rw same at f)
      | inr miss ↦
          let (s, there, move) = Evolves-fetch match_id fs (rw miss at found) in
          (s, rw (f.same_id, miss) there, move)
    ]

-- Moves keep the ids, so they keep them unique.
pub Moves-fetch-none :
    (match_id : ℕ) {rs ss : List MatchRow}
    → Moves rs ss
    → fetch (has_id match_id) rs ≡ none
    → fetch (has_id match_id) ss ≡ none
unfolding fetch
Moves-fetch-none match_id nil h = refl
Moves-fetch-none match_id (Moves.step {r = x} {s = y} f fs) h =
    elim (Bool-cases (x.id == match_id)) [
      | inl hit ↦ absurd (let no = rw hit at h in cc)
      | inr miss ↦ rw (f.same_id, miss) (Moves-fetch-none match_id fs (rw miss at h))
    ]

pub Moves-UniqueIds : {rs ss : List MatchRow} → Moves rs ss → UniqueIds rs → UniqueIds ss
Moves-UniqueIds nil u = tt
Moves-UniqueIds (Moves.step {r = x} {s = y} f fs) u =
    (rw f.same_id (Moves-fetch-none x.id fs u.0), Moves-UniqueIds fs u.1)

-- With unique ids, the row that a lookup finds is the only one with its id.
only_row :
    (match_id : ℕ) (rs : List MatchRow) {r : MatchRow}
    → UniqueIds rs
    → fetch (has_id match_id) rs ≡ some r
    → All (λ x. has_id match_id x ≡ true → x ≡ r) rs
unfolding fetch
only_row match_id [] u h = tt
only_row match_id (x ∷ rs) {r} u h = elim (Bool-cases (x.id == match_id)) [
  | inl hit ↦
      let at : x.id ≡ match_id = (==_iff x.id match_id).0 hit in
      (λ _. ground arith, none_left match_id rs (rw at at u.0))
  | inr miss ↦
      (λ hit. absurd (let no = sym miss ∙ hit in cc), only_row match_id rs u.1 (rw miss at h))
]
  where
    none_left :
        (match_id : ℕ) (rs : List MatchRow)
        → fetch (has_id match_id) rs ≡ none
        → All (λ x. has_id match_id x ≡ true → x ≡ r) rs
    none_left match_id [] h = tt
    none_left match_id (x ∷ rs) h = elim (Bool-cases (x.id == match_id)) [
      | inl hit ↦ absurd (let no = rw hit at h in cc)
      | inr miss ↦
          (λ hit. absurd (let no = sym miss ∙ hit in cc), none_left match_id rs (rw miss at h))
    ]

-- An update by id, when the change is a move of the row that a lookup finds.
pub Moves-update_match :
    (match_id : ℕ) (change : MatchRow → MatchRow) (db : Db) {r : MatchRow}
    → UniqueIds db.matches
    → find_match match_id db ≡ some r
    → RowMove r (change r)
    → Moves db.matches (update_match match_id change db).matches
unfolding find_match update_match
Moves-update_match match_id change db {r} u found move =
    Moves-update (has_id match_id) change db.matches (
      All-mono (λ x. has_id match_id x ≡ true → x ≡ r)
        (λ x. has_id match_id x ≡ true → RowMove x (change x)) db.matches
        (λ x only hit. rw (only hit) move) (only_row match_id db.matches u found))
