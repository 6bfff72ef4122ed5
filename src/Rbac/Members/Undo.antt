-- ===== src/Rbac/Members/Undo.antt =====
-- Revoking right after assigning.
use ymatch.Common.{
  ==_self, ℕ, ◌≡◌, refl, sym, ap, ◌∙◌, inl, inr, Bool, true, false, List, [], ◌∷◌, ◌++◌, arith,
  exists_row, delete,
}
use ymatch.Error.{ok}
use ymatch.Rbac.{Authority, ScopeType}
use ymatch.Rbac.Transfer.{assign_role, is_assignment}
use ymatch.Rbac.Holders.{holds, with_row, same_type_self}
use ymatch.Rbac.Members.{role_id_named, assign_editor, revoke_editor}
use ymatch.Rbac.Members.Editing.{assign_role-cases, role_id_named-frame}

module _ {ℓ} {A : Type ℓ} (test : A → Bool) where
  delete-none : (rs : List A) → exists_row test rs ≡ false → delete test rs ≡ rs
  unfolding delete exists_row
  delete-none [] h = refl
  delete-none (r ∷ rs) h =
      let here : test r ≡ false = ground arith in
      let later : exists_row test rs ≡ false = ground arith in
      rw here (ap (λ rest. r ∷ rest) (delete-none rs later))

  delete-appended :
      (rs : List A) (r : A)
      → exists_row test rs ≡ false
      → test r ≡ true
      → delete test (rs ++ r ∷ []) ≡ rs
  unfolding delete exists_row
  delete-appended [] r h hit = rw hit refl
  delete-appended (x ∷ xs) r h hit =
      let here : test x ≡ false = ground arith in
      let later : exists_row test xs ≡ false = ground arith in
      rw here (ap (λ rest. x ∷ rest) (delete-appended xs r later hit))

revoke-eq :
    (kind : ScopeType) (user_id scope_id role_id : ℕ) (auth : Authority)
    → role_id_named kind "editor" auth ≡ ok role_id
    → revoke_editor kind user_id scope_id auth
      ≡ ok (record auth {
        user_roles = delete (is_assignment kind user_id role_id scope_id) auth.user_roles;
      })
unfolding revoke_editor
revoke-eq kind user_id scope_id role_id auth role = rw role refl

assign-eq :
    (kind : ScopeType) (user_id scope_id role_id : ℕ) (auth : Authority)
    → role_id_named kind "editor" auth ≡ ok role_id
    → assign_editor kind user_id scope_id auth ≡ assign_role kind user_id role_id scope_id auth
unfolding assign_editor
assign-eq kind user_id scope_id role_id auth role = rw role refl

ok_inj : {a b : Authority} → ok a ≡ ok b → a ≡ b
ok_inj e = cc

-- When a user is no editor of the scope and the assignment succeeds, revoking it restores all tables
-- exactly as they were.
pub revoke_editor-assign_editor :
    (kind : ScopeType) (user_id scope_id role_id : ℕ) (auth auth' : Authority)
    → role_id_named kind "editor" auth ≡ ok role_id
    → holds kind role_id scope_id user_id auth.user_roles ≡ false
    → assign_editor kind user_id scope_id auth ≡ ok auth'
    → revoke_editor kind user_id scope_id auth' ≡ ok auth
revoke_editor-assign_editor kind user_id scope_id role_id auth auth' role absent assigned =
    let ran = sym (assign-eq kind user_id scope_id role_id auth role) ∙ assigned in
    elim (assign_role-cases kind role_id user_id scope_id auth) [
      | inl (_, same) ↦ rw (← ok_inj (sym same ∙ ran)) (
          revoke-eq kind user_id scope_id role_id auth role
          ∙ ap (λ rows. ok (record auth { user_roles = rows }))
              (delete-none _ auth.user_roles absent))
      | inr (inl (_, added)) ↦ rw (← ok_inj (sym added ∙ ran)) (
          revoke-eq kind user_id scope_id role_id (with_row kind user_id role_id scope_id auth) (
            role_id_named-frame kind "editor" (with_row kind user_id role_id scope_id auth) auth
              refl
            ∙ role)
          ∙ ap (λ rows. ok (record auth { user_roles = rows }))
              (delete-appended (is_assignment kind user_id role_id scope_id) auth.user_roles _
                absent
                (rw (==_self user_id, ==_self role_id, ==_self scope_id) (same_type_self kind))))
      | inr (inr (_, failed)) ↦ absurd (let no = sym failed ∙ ran in cc)
    ]
