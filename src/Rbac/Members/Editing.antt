-- ===== src/Rbac/Members/Editing.antt =====
-- The editors after any sequence of assignments and revocations, as a function of scope and user.
use ymatch.Common.Rows.{All-delete}
use ymatch.Common.{
  ℕ, String, ◌≡◌, refl, ◌∙◌, ◌⊎◌, inl, inr, Bool, true, false, not, ◌&&◌, ◌||◌, List, [], ◌∷◌,
  arith, ◌==◌, Bool-cases, exists_row, delete, All,
}
use ymatch.Common.Exists.{exists_row-delete, exists_row-cong, exists_row-append}
use ymatch.Error.{Result, ok, err, constraint_violation}
use ymatch.Rbac.{Authority, ScopeType, same_type}
use ymatch.Rbac.Service.{is_at}
use ymatch.Rbac.Transfer.{assign_role, is_assignment, at_assignment, known_user}
use ymatch.Rbac.Holders.{holds, HasType, assigned-holds, assigned_frame, revoked-holds, with_row}
use ymatch.Rbac.Members.{role_id_named, assign_editor, revoke_editor}

-- A request of the members API, past its gate.
pub data Edit : Type 0 where
  assign revoke : ℕ → ℕ → Edit

-- An error leaves the tables as they were.
abbrev pub committed : Authority → Result Authority → Authority
committed auth (ok auth') = auth'
committed auth (err e) = auth

abbrev pub edit : ScopeType → Edit → Authority → Authority
edit kind (assign user_id scope_id) auth = committed auth (assign_editor kind user_id scope_id auth)
edit kind (revoke user_id scope_id) auth = committed auth (revoke_editor kind user_id scope_id auth)

abbrev pub edits : ScopeType → List Edit → Authority → Authority
edits kind [] auth = auth
edits kind (op ∷ ops) auth = edits kind ops (edit kind op auth)

-- The same requests on a function: who is an editor of which scope.
abbrev pub change_editors : (ℕ → Bool) → Edit → (ℕ → ℕ → Bool) → ℕ → ℕ → Bool
change_editors known (assign new at) f scope_id user_id =
    (known new && (new == user_id && at == scope_id)) || f scope_id user_id
change_editors known (revoke gone at) f scope_id user_id =
    not (gone == user_id && at == scope_id) && f scope_id user_id

abbrev pub replay : (ℕ → Bool) → List Edit → (ℕ → ℕ → Bool) → ℕ → ℕ → Bool
replay known [] f = f
replay known (op ∷ ops) f = replay known ops (change_editors known op f)

abbrev editors : ScopeType → ℕ → Authority → ℕ → ℕ → Bool
editors kind role_id auth scope_id user_id = holds kind role_id scope_id user_id auth.user_roles

-- What one request does.
record Edited (kind : ScopeType) (role_id : ℕ) (op : Edit) (auth auth' : Authority) : Type 0 where
  same_roles : auth'.roles ≡ auth.roles
  same_users : auth'.users ≡ auth.users
  typed : All (HasType kind role_id) auth'.user_roles
  editors_as :
      (scope_id user_id : ℕ)
      → editors kind role_id auth' scope_id user_id
        ≡ change_editors (λ u. known_user u auth) op (editors kind role_id auth) scope_id user_id
  others_as :
      (other scope_id user_id : ℕ)
      → (role_id == other) ≡ false
      → holds kind other scope_id user_id auth'.user_roles
        ≡ holds kind other scope_id user_id auth.user_roles

absorbed : (k x h : Bool) → h ≡ (x || h) → h ≡ ((k && x) || h)
absorbed k x h e = ground arith

module _ (kind : ScopeType) (role_id new at : ℕ) (auth : Authority) where
  no_change :
      (typed : All (HasType kind role_id) auth.user_roles)
      → ((sid u : ℕ)
          → editors kind role_id auth sid u
            ≡ ((known_user new auth && (new == u && at == sid)) || editors kind role_id auth sid u))
      → Edited kind role_id (assign new at) auth auth
  no_change typed same = record {
    same_roles = refl;
    same_users = refl;
    typed = typed;
    editors_as = same;
    others_as = λ other sid u e. refl;
  }

  pub assign_role-cases :
      ((exists_row (at_assignment new role_id at) auth.user_roles ≡ true)
        × (assign_role kind new role_id at auth ≡ ok auth))
      ⊎ ((known_user new auth ≡ true)
          × (assign_role kind new role_id at auth ≡ ok (with_row kind new role_id at auth)))
      ⊎ ((known_user new auth ≡ false)
          × (assign_role kind new role_id at auth ≡ err constraint_violation))
  unfolding assign_role
  assign_role-cases =
      elim (Bool-cases (exists_row (at_assignment new role_id at) auth.user_roles)) [
        | inl held ↦ inl (held, rw held refl)
        | inr fresh ↦ inr (elim (Bool-cases (known_user new auth)) [
          | inl known ↦ inl (known, rw (fresh, known) refl)
          | inr unknown ↦ inr (unknown, rw (fresh, unknown) refl)
        ])
      ]

  pub added_other :
      (other sid u : ℕ)
      → (role_id == other) ≡ false
      → holds kind other sid u (with_row kind new role_id at auth).user_roles
        ≡ holds kind other sid u auth.user_roles
  unfolding exists_row
  added_other other sid u e =
      exists_row-append (is_assignment kind u other sid) auth.user_roles _
      ∙ rw e (
          nothing_more (holds kind other sid u auth.user_roles) (new == u) (at == sid)
            (same_type kind kind))
    where
      nothing_more : (h a b c : Bool) → (h || ((((a && false) && b) && c) || false)) ≡ h
      nothing_more h a b c = ground arith

  assigned-Edited :
      All (HasType kind role_id) auth.user_roles
      → Edited kind role_id
          (assign new at)
          auth
          (committed auth (assign_role kind new role_id at auth))
  assigned-Edited typed = elim assign_role-cases [
    | inl (held, same) ↦ rw same (
        no_change typed (λ sid u.
          absorbed (known_user new auth) (new == u && at == sid) (editors kind role_id auth sid u)
            (assigned-holds kind role_id at new sid u auth auth typed same)))
    | inr (inl (known, added)) ↦ rw added record {
      same_roles = refl;
      same_users = refl;
      typed =
          (assigned_frame kind role_id at new auth (with_row kind new role_id at auth) typed
            added).2;
      editors_as = λ sid u. rw known (
          assigned-holds kind role_id at new sid u auth (with_row kind new role_id at auth) typed
            added);
      others_as = added_other;
    }
    | inr (inr (unknown, failed)) ↦ rw failed (no_change typed (λ sid u. rw unknown refl))
  ]

kept_here : (a q c x : Bool) → (not (((a && false) && q) && c) && x) ≡ x
kept_here a q c x = ground arith

no_row_there : (y s r c : Bool) → (not y && (((s && false) && r) && c)) ≡ (((s && false) && r) && c)
no_row_there y s r c = ground arith

module _ (kind : ScopeType) (role_id gone at : ℕ) (auth : Authority) where
  revoked_auth : Authority
  revoked_auth = record auth {
    user_roles = delete (is_assignment kind gone role_id at) auth.user_roles;
  }

  pub revoked_other :
      (other sid u : ℕ)
      → (role_id == other) ≡ false
      → holds kind other sid u (delete (is_assignment kind gone role_id at) auth.user_roles)
        ≡ holds kind other sid u auth.user_roles
  revoked_other other sid u e =
      exists_row-delete (is_assignment kind u other sid) (is_assignment kind gone role_id at)
        auth.user_roles
      ∙ exists_row-cong _ (is_assignment kind u other sid) auth.user_roles (λ r.
        elim (Bool-cases (r.role_id == other)) [
          | inl here ↦
              let differs : (r.role_id == role_id) ≡ false = ground arith in
              rw differs (
                kept_here (r.user_id == gone) (is_at r.scope_id at) (same_type r.scope_type kind)
                  (is_assignment kind u other sid r))
          | inr there ↦ rw there (
              no_row_there (is_assignment kind gone role_id at r) (r.user_id == u)
                (is_at r.scope_id sid) (same_type r.scope_type kind))
        ])

  revoked-Edited :
      All (HasType kind role_id) auth.user_roles
      → Edited kind role_id (revoke gone at) auth revoked_auth
  unfolding revoked_auth
  revoked-Edited typed = record {
    same_roles = refl;
    same_users = refl;
    typed =
        All-delete (HasType kind role_id) (is_assignment kind gone role_id at) auth.user_roles
          typed;
    editors_as = λ sid u. revoked-holds kind role_id at gone sid u auth.user_roles;
    others_as = revoked_other;
  }

edit-Edited :
    (kind : ScopeType) (role_id : ℕ) (op : Edit) (auth : Authority)
    → role_id_named kind "editor" auth ≡ ok role_id
    → All (HasType kind role_id) auth.user_roles
    → Edited kind role_id op auth (edit kind op auth)
unfolding assign_editor revoke_editor revoked_auth
edit-Edited kind role_id (assign new at) auth role typed =
    rw role (assigned-Edited kind role_id new at auth typed)
edit-Edited kind role_id (revoke gone at) auth role typed =
    rw role (revoked-Edited kind role_id gone at auth typed)

replay-cong :
    (known known' : ℕ → Bool) (ops : List Edit) (f g : ℕ → ℕ → Bool)
    → ((u : ℕ) → known u ≡ known' u)
    → ((s u : ℕ) → f s u ≡ g s u)
    → (s u : ℕ) → replay known ops f s u ≡ replay known' ops g s u
replay-cong known known' [] f g k h s u = h s u
replay-cong known known' (assign new at ∷ ops) f g k h s u =
    replay-cong known known' ops _ _ k (λ s u. rw (k new, h s u) refl) s u
replay-cong known known' (revoke gone at ∷ ops) f g k h s u =
    replay-cong known known' ops _ _ k (λ s u. rw (h s u) refl) s u

pub role_id_named-frame :
    (kind : ScopeType) (name : String) (a b : Authority)
    → a.roles ≡ b.roles
    → role_id_named kind name a ≡ role_id_named kind name b
unfolding role_id_named
role_id_named-frame kind name a b e = rw e refl

-- Any sequence of assignments and revocations of editors, each of which succeeds or fails by itself, in
-- tables that have the role and in which its rows have its scope type: who is an editor of which
-- scope afterwards is the replay of the sequence on a function, where an assignment to an unknown
-- user does nothing; and who holds any other role of a scope, such as the creator's, is unchanged.
pub edits-replay :
    (kind : ScopeType) (role_id other : ℕ) (ops : List Edit) (auth : Authority)
    → role_id_named kind "editor" auth ≡ ok role_id
    → All (HasType kind role_id) auth.user_roles
    → (role_id == other) ≡ false
    → ((scope_id user_id : ℕ)
        → holds kind role_id scope_id user_id (edits kind ops auth).user_roles
          ≡ replay
              (λ u. known_user u auth)
              ops
              (λ s u. holds kind role_id s u auth.user_roles)
              scope_id
              user_id)
      × ((scope_id user_id : ℕ)
          → holds kind other scope_id user_id (edits kind ops auth).user_roles
            ≡ holds kind other scope_id user_id auth.user_roles)
edits-replay kind role_id other [] auth role typed e = (λ s u. refl, λ s u. refl)
edits-replay kind role_id other (op ∷ ops) auth role typed e =
    let done = edit-Edited kind role_id op auth role typed in
    let role' : role_id_named kind "editor" (edit kind op auth) ≡ ok role_id =
      role_id_named-frame kind "editor" (edit kind op auth) auth done.same_roles ∙ role in
    let (later, others) =
      edits-replay kind role_id other ops (edit kind op auth) role' done.typed e in
    (
      λ s u. later s u ∙ replay-cong _ _ ops _ _ (λ v. rw done.same_users refl) done.editors_as s u,
      λ s u. others s u ∙ done.others_as other s u e,
    )
