-- ===== src/Lifecycle/RowMoves.antt =====
-- The changes that the life cycle makes to a row, as moves.
use ymatch.Common.{
  ℕ, ◌≡◌, refl, sym, ◌∙◌, ◌≢◌, inl, inr, Bool, true, false, Option, none, some, Bool-cases,
}
use ymatch.Store.{Status, completed, MatchRow}
use ymatch.Store.Matches.{is_some, completed_column}
use ymatch.Store.Matches.Evolve.{RowMove, RowMove-refl}
use ymatch.Lifecycle.Moves.{stamp_unless}
use ymatch.Lifecycle.Once.{marked}

-- A change of the status only, which may not take COMPLETED away.
pub status-RowMove :
    (r : MatchRow) (s : Status)
    → (r.status ≡ completed → s ≡ completed)
    → RowMove r (record r { status = s })
status-RowMove r s keep = record {
  same_id = refl;
  same_user1 = refl;
  same_user2 = refl;
  same_event = refl;
  same_group = refl;
  stays_completed = keep;
  keeps_completed1 = λ t e. e;
  keeps_completed2 = λ t e. e;
  keeps_applied1 = λ t e. e;
  keeps_applied2 = λ t e. e;
  sound = λ h. record {
    completed1 = λ e. keep (h.completed1 e);
    completed2 = λ e. keep (h.completed2 e);
    applied1 = h.applied1;
    applied2 = h.applied2;
  };
}

pub open-RowMove :
    (r : MatchRow) (s : Status) → r.status ≢ completed → RowMove r (record r { status = s })
open-RowMove r s open_match = status-RowMove r s (λ e. absurd (open_match e))

is_some-none : (o : Option ℕ) → is_some o ≡ false → o ≡ none
is_some-none none e = refl
is_some-none (some t) e = cc

-- The stamps of the sides, written where there was none.
module _ (now : ℕ) (r : MatchRow) (done : r.status ≡ completed) where
  stamp1-RowMove :
      r.user1_completed_at ≡ none → RowMove r (record r { user1_completed_at = some now })
  stamp1-RowMove unset = record {
    same_id = refl;
    same_user1 = refl;
    same_user2 = refl;
    same_event = refl;
    same_group = refl;
    stays_completed = λ e. e;
    keeps_completed1 = λ t e. absurd (let no = sym unset ∙ e in cc);
    keeps_completed2 = λ t e. e;
    keeps_applied1 = λ t e. e;
    keeps_applied2 = λ t e. e;
    sound = λ h. record {
      completed1 = λ e. done;
      completed2 = λ e. done;
      applied1 = λ e. refl;
      applied2 = h.applied2;
    };
  }

  stamp2-RowMove :
      r.user2_completed_at ≡ none → RowMove r (record r { user2_completed_at = some now })
  stamp2-RowMove unset = record {
    same_id = refl;
    same_user1 = refl;
    same_user2 = refl;
    same_event = refl;
    same_group = refl;
    stays_completed = λ e. e;
    keeps_completed1 = λ t e. e;
    keeps_completed2 = λ t e. absurd (let no = sym unset ∙ e in cc);
    keeps_applied1 = λ t e. e;
    keeps_applied2 = λ t e. e;
    sound = λ h. record {
      completed1 = λ e. done;
      completed2 = λ e. done;
      applied1 = h.applied1;
      applied2 = λ e. refl;
    };
  }

  pub stamp-RowMove : (is_user1 : Bool) → RowMove r (stamp_unless is_user1 now r)
  stamp-RowMove true = elim (Bool-cases (is_some r.user1_completed_at)) [
    | inr unset ↦ rw unset (stamp1-RowMove (is_some-none r.user1_completed_at unset))
    | inl set ↦ rw set (RowMove-refl r)
  ]
  stamp-RowMove false = elim (Bool-cases (is_some r.user2_completed_at)) [
    | inr unset ↦ rw unset (stamp2-RowMove (is_some-none r.user2_completed_at unset))
    | inl set ↦ rw set (RowMove-refl r)
  ]

  -- The mark of the apply, for a side that has completed.
  mark1-RowMove :
      is_some r.user1_completed_at ≡ true
      → r.user1_inventory_applied_at ≡ none
      → RowMove r (record r { user1_inventory_applied_at = some now })
  mark1-RowMove completed_side unset = record {
    same_id = refl;
    same_user1 = refl;
    same_user2 = refl;
    same_event = refl;
    same_group = refl;
    stays_completed = λ e. e;
    keeps_completed1 = λ t e. e;
    keeps_completed2 = λ t e. e;
    keeps_applied1 = λ t e. absurd (let no = sym unset ∙ e in cc);
    keeps_applied2 = λ t e. e;
    sound = λ h. record {
      completed1 = h.completed1;
      completed2 = h.completed2;
      applied1 = λ e. completed_side;
      applied2 = h.applied2;
    };
  }

  mark2-RowMove :
      is_some r.user2_completed_at ≡ true
      → r.user2_inventory_applied_at ≡ none
      → RowMove r (record r { user2_inventory_applied_at = some now })
  mark2-RowMove completed_side unset = record {
    same_id = refl;
    same_user1 = refl;
    same_user2 = refl;
    same_event = refl;
    same_group = refl;
    stays_completed = λ e. e;
    keeps_completed1 = λ t e. e;
    keeps_completed2 = λ t e. e;
    keeps_applied1 = λ t e. e;
    keeps_applied2 = λ t e. absurd (let no = sym unset ∙ e in cc);
    sound = λ h. record {
      completed1 = h.completed1;
      completed2 = h.completed2;
      applied1 = h.applied1;
      applied2 = λ e. completed_side;
    };
  }

  pub mark-RowMove :
      (is_user1 : Bool)
      → is_some (completed_column is_user1 r) ≡ true
      → RowMove r (marked is_user1 now r)
  mark-RowMove true side = elim (Bool-cases (is_some r.user1_inventory_applied_at)) [
    | inr unset ↦ rw unset (mark1-RowMove side (is_some-none r.user1_inventory_applied_at unset))
    | inl set ↦ rw set (RowMove-refl r)
  ]
  mark-RowMove false side = elim (Bool-cases (is_some r.user2_inventory_applied_at)) [
    | inr unset ↦ rw unset (mark2-RowMove side (is_some-none r.user2_inventory_applied_at unset))
    | inl set ↦ rw set (RowMove-refl r)
  ]

pub proposer-RowMove :
    (r : MatchRow) (user_id : ℕ) → RowMove r (record r { offered_by = some user_id })
proposer-RowMove r user_id = record {
  same_id = refl;
  same_user1 = refl;
  same_user2 = refl;
  same_event = refl;
  same_group = refl;
  stays_completed = λ e. e;
  keeps_completed1 = λ t e. e;
  keeps_completed2 = λ t e. e;
  keeps_applied1 = λ t e. e;
  keeps_applied2 = λ t e. e;
  sound = λ h. record {
    completed1 = h.completed1;
    completed2 = h.completed2;
    applied1 = h.applied1;
    applied2 = h.applied2;
  };
}
