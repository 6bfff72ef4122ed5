-- ===== src/Api/Owners/Events.antt =====
-- The creators of events, when an event is changed or deleted.
use ymatch.Common.{
  ==_iff, ℕ, ◌≡◌, refl, sym, ap, ◌∙◌, inl, inr, false, Option, none, some, List, [], ◌∷◌, arith,
  ◌==◌, Bool-cases, fetch, update, delete,
}
use ymatch.Rbac.{Authority, EventRow, GroupRow}
use ymatch.Rbac.Transfer.{lock_creator_for_update, has_event_id, creator_of}
use ymatch.Api.Owners.{Governed, Unmoved}

creator-update :
    (e event_id : ℕ) (change : EventRow → EventRow) (rows : List EventRow)
    → ((r : EventRow) → (change r).id ≡ r.id)
    → ((r : EventRow) → (change r).creator_id ≡ r.creator_id)
    → creator_of (fetch (has_event_id e) (update (has_event_id event_id) change rows))
      ≡ creator_of (fetch (has_event_id e) rows)
unfolding fetch update
creator-update e event_id change [] id owner = refl
creator-update e event_id change (r ∷ rows) id owner = elim (Bool-cases (r.id == event_id)) [
  | inl changed ↦ elim (Bool-cases (r.id == e)) [
    | inl hit ↦ rw changed (rw (id r) (rw hit (ap some (owner r))))
    | inr miss ↦ rw changed (rw (id r) (rw miss (creator-update e event_id change rows id owner)))
  ]
  | inr kept ↦ elim (Bool-cases (r.id == e)) [
    | inl hit ↦ rw kept (rw hit refl)
    | inr miss ↦ rw kept (rw miss (creator-update e event_id change rows id owner))
  ]
]

deleted-none :
    (e : ℕ) (rows : List EventRow)
    → creator_of (fetch (has_event_id e) (delete (has_event_id e) rows)) ≡ none
unfolding fetch delete
deleted-none e [] = refl
deleted-none e (r ∷ rows) = elim (Bool-cases (r.id == e)) [
  | inl hit ↦ rw hit (deleted-none e rows)
  | inr miss ↦ rw miss (rw miss (deleted-none e rows))
]

deleted-other :
    (e event_id : ℕ) (rows : List EventRow)
    → (event_id == e) ≡ false
    → creator_of (fetch (has_event_id e) (delete (has_event_id event_id) rows))
      ≡ creator_of (fetch (has_event_id e) rows)
unfolding fetch delete
deleted-other e event_id [] other = refl
deleted-other e event_id (r ∷ rows) other = elim (Bool-cases (r.id == event_id)) [
  | inl gone ↦
      let not_e : (r.id == e) ≡ false = ground arith in
      rw gone (rw not_e (deleted-other e event_id rows other))
  | inr kept ↦ elim (Bool-cases (r.id == e)) [
    | inl hit ↦ rw kept (rw hit refl)
    | inr miss ↦ rw kept (rw miss (deleted-other e event_id rows other))
  ]
]

creator-delete :
    (e event_id : ℕ) (rows : List EventRow) (owner : Option ℕ)
    → creator_of (fetch (has_event_id e) (delete (has_event_id event_id) rows)) ≡ some owner
    → creator_of (fetch (has_event_id e) rows) ≡ some owner
creator-delete e event_id rows owner found = elim (Bool-cases (event_id == e)) [
  | inl same ↦ absurd (
      let here = rw ((==_iff event_id e).0 same) at found in
      let none_left = sym (deleted-none e rows) ∙ here in cc)
  | inr other ↦ sym (deleted-other e event_id rows other) ∙ found
]

pub changed-Unmoved :
    (role_id event_id : ℕ) (change : EventRow → EventRow) (auth : Authority)
    → Governed role_id auth
    → ((r : EventRow) → (change r).id ≡ r.id)
    → ((r : EventRow) → (change r).creator_id ≡ r.creator_id)
    → Unmoved role_id auth
        (record auth { events = update (has_event_id event_id) change auth.events })
unfolding lock_creator_for_update
changed-Unmoved role_id event_id change auth g id owner = record {
  same_roles = refl;
  same_next = refl;
  typed = g.agree.0;
  owners = λ e o found. sym (creator-update e event_id change auth.events id owner) ∙ found;
  holders = λ e u. refl;
}

pub deleted-Unmoved :
    (role_id event_id : ℕ) (left : List GroupRow) (auth : Authority)
    → Governed role_id auth
    → Unmoved role_id auth
        (record auth { events = delete (has_event_id event_id) auth.events; groups = left })
unfolding lock_creator_for_update
deleted-Unmoved role_id event_id left auth g = record {
  same_roles = refl;
  same_next = refl;
  typed = g.agree.0;
  owners = λ e o found. creator-delete e event_id auth.events o found;
  holders = λ e u. refl;
}
