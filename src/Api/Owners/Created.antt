-- ===== src/Api/Owners/Created.antt =====
-- Owners and the creator's role when an event is created.
use ymatch.Common.{
  ==_iff, ℕ, suc, ◌≤◌, String, ◌≡◌, refl, sym, ap, ◌∙◌, inl, inr, Bool, true, false, ◌&&◌, ◌||◌,
  Option, none, some, [], ◌∷◌, ◌++◌, arith, ◌==◌, Bool-cases, Option-cases, fetch,
}
use ymatch.Common.Rows.{fetch-append_none, fetch-append_some}
use ymatch.Error.{ok, >>=-eq_ok}
use ymatch.Rbac.{Authority, ScopeType, EventRow}
use ymatch.Rbac.Transfer.{
  assign_role, lock_creator_for_update, known_user, assign_creator, has_event_id, creator_of,
}
use ymatch.Rbac.Creation.{insert_event, create_event}
use ymatch.Rbac.Holders.{assigned_frame, assigned-holds, assigned-eq_ok}
use ymatch.Rbac.Ownership.{lock-frame}
use ymatch.Api.Owners.{Governed, creator_role_id-frame}
use ymatch.Error.{ok_inj}
use ymatch.Api.Owners.Transfers.{assigned-next}

abbrev with_event : EventRow → Authority → Authority
with_event event auth = record auth {
  events = auth.events ++ event ∷ [];
  next_event_id = suc auth.next_event_id;
}

-- The row that `insert_event` adds.
inserted-ok :
    (name : String) (creator : ℕ) (status : Option String) (auth : Authority) {event : EventRow}
    {auth' : Authority}
    → insert_event name creator status auth ≡ ok (event, auth')
    → (event.id ≡ auth.next_event_id)
      × (event.creator_id ≡ some creator)
      × (with_event event auth ≡ auth')
unfolding insert_event
inserted-ok name creator status auth {event} {auth'} h =
    elim (Bool-cases (known_user creator auth)) [
      | inl known ↦
          let e = rw known at h in
          let both = ok_inj e in
          (
            ap (λ (p : EventRow × Authority). p.0.id) (sym both),
            ap (λ (p : EventRow × Authority). p.0.creator_id) (sym both),
            ap (λ (p : EventRow × Authority). with_event p.0 auth) (sym both)
                ∙ ap (λ (p : EventRow × Authority). p.1) both,
          )
      | inr unknown ↦ absurd (let no = rw unknown at h in cc)
    ]

lock-with_event :
    (event : EventRow) (auth : Authority) (e : ℕ)
    → ((event.id == e) ≡ false
        → lock_creator_for_update e (with_event event auth) ≡ lock_creator_for_update e auth)
      × ((event.id == e) ≡ true
          → lock_creator_for_update e auth ≡ none
          → lock_creator_for_update e (with_event event auth) ≡ some event.creator_id)
unfolding lock_creator_for_update
lock-with_event event auth e = elim (Option-cases (fetch (has_event_id e) auth.events)) [
  | inl gone ↦ (
    λ other.
        ap creator_of (fetch-append_none (has_event_id e) auth.events _ gone)
        ∙ rw (other, gone) refl,
    λ same _. ap creator_of (fetch-append_none (has_event_id e) auth.events _ gone) ∙ rw same refl,
  )
  | inr (row, there) ↦ (
    λ other. ap creator_of (fetch-append_some (has_event_id e) auth.events _ there) ∙ rw there refl,
    λ same none_there. absurd (let no = rw there at none_there in cc),
  )
]

newly_held : (a h : Bool) → h ≡ false → ((a && true) || h) ≡ a
newly_held a h e = ground arith

held_before : (a h : Bool) → ((a && false) || h) ≡ h
held_before a h = ground arith

assigned-Governed :
    (event : EventRow) (creator role_id : ℕ) (auth auth' : Authority)
    → Governed role_id auth
    → event.id ≡ auth.next_event_id
    → event.creator_id ≡ some creator
    → assign_role ScopeType.event creator role_id event.id (with_event event auth) ≡ ok auth'
    → Governed role_id auth'
assigned-Governed event creator role_id auth auth' g id owner_is assigned =
    let base = with_event event auth in
    let (events, roles, typed) =
      assigned_frame ScopeType.event role_id event.id creator base auth' g.agree.0 assigned in
    let now_holds = λ (e u : ℕ).
      assigned-holds ScopeType.event role_id event.id creator e u base auth' g.agree.0 assigned in
    let now_locked = λ (e : ℕ). lock-frame e auth' base events in
    let next : auth'.next_event_id ≡ suc auth.next_event_id =
      assigned-next role_id event.id creator base auth' assigned in
    let (gone, unheld) = g.fresh event.id (rw id (omega arith)) in
    record {
      role = creator_role_id-frame auth' auth roles ∙ g.role;
      only = rw roles g.only;
      agree = (
        typed,
        λ e owner found u. elim (Bool-cases (event.id == e)) [
          | inl same ↦
              let here : event.id ≡ e = (==_iff event.id e).0 same in
              let to : some owner ≡ some (some creator) =
                sym found
                ∙ now_locked e
                ∙ (lock-with_event event auth e).1 same (rw (← here) gone)
                ∙ ap some owner_is in
              let owner_new : owner ≡ some creator = cc in
              rw owner_new
                (now_holds e u ∙ rw same (newly_held (creator == u) _ (rw (← here) (unheld u))))
          | inr other ↦
              now_holds e u
              ∙ rw other (held_before (creator == u) _)
              ∙ g.agree.1 e owner
                  (sym ((lock-with_event event auth e).0 other) ∙ sym (now_locked e) ∙ found) u
        ],
      );
      fresh = λ n above.
          let past : suc auth.next_event_id ≤ n = rw next at above in
          let (n_gone, n_unheld) = g.fresh n (omega arith) in
          let other : (event.id == n) ≡ false = ground arith in
          (
            now_locked n ∙ (lock-with_event event auth n).0 other ∙ n_gone,
            λ u. now_holds n u ∙ rw other (held_before (creator == u) _) ∙ n_unheld u,
          );
    }

pub created-Governed :
    (name : String) (creator role_id : ℕ) (status : Option String) (auth : Authority)
    {event : EventRow} {auth' : Authority}
    → Governed role_id auth
    → create_event name creator status auth ≡ ok (event, auth')
    → Governed role_id auth'
unfolding create_event
created-Governed name creator role_id status auth {event} {auth'} g h =
    let (inserted, e1, h1) = >>=-eq_ok (insert_event name creator status auth) _ h in
    let (assigned, e2, h2) =
      >>=-eq_ok (assign_creator ScopeType.event creator inserted.0.id inserted.1) _ h1 in
    let (id, owner, same) = inserted-ok name creator status auth e1 in
    let role =
      creator_role_id-frame inserted.1 auth (ap (λ (a : Authority). a.roles) (sym same)) ∙ g.role in
    let done : assigned ≡ auth' = ap (λ (p : EventRow × Authority). p.1) (ok_inj h2) in
    assigned-Governed inserted.0 creator role_id auth auth' g id owner (
      ap (assign_role ScopeType.event creator role_id inserted.0.id) same
      ∙ sym (assigned-eq_ok ScopeType.event role_id inserted.0.id creator inserted.1 role)
      ∙ e2
      ∙ ap ok done)
