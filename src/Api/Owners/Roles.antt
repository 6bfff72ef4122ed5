-- ===== src/Api/Owners/Roles.antt =====
-- Who holds the creator's role, when the editors of an event or somebody's global role change.
use ymatch.Rbac.Service.{is_null}
use ymatch.Common.Exists.{exists_row-cong, exists_row-delete, exists_row-append}
use ymatch.Common.Rows.{All-delete, All-append, All-fetch}
use ymatch.Common.{
  str_eq_iff, ==_iff, str_eq, ℕ, String, ◌≡◌, refl, sym, ◌∙◌, inl, inr, Bool, true, false, not,
  ◌&&◌, ◌||◌, Option, some, List, arith, ◌==◌, Bool-cases, Option-cases, fetch, exists_row, delete,
  All,
}
use ymatch.Error.{ok_inj, ok, >>=-eq_ok}
use ymatch.Rbac.{Authority, ScopeType, RoleRow, UserRoleRow, same_type}
use ymatch.Rbac.Transfer.{is_assignment, lock_creator_for_update, at_assignment}
use ymatch.Rbac.Holders.{holds, HasType, with_row}
use ymatch.Rbac.Members.{assign_editor, revoke_editor, role_id_named}
use ymatch.Rbac.Members.Editing.{assign_role-cases, added_other, revoked_other}
use ymatch.Rbac.Users.{
  has_user_id, grant_global, at_global, is_global_role, is_named_global, set_role,
}
use ymatch.Api.Owners.{Governed, Unmoved, OwnRole, elsewhere-Unmoved}

-- New assignments that leave the events.
assigned-Unmoved :
    (role_id : ℕ) (rows : List UserRoleRow) (auth : Authority)
    → All (HasType ScopeType.event role_id) rows
    → ((e u : ℕ)
        → holds ScopeType.event role_id e u rows
          ≡ holds ScopeType.event role_id e u auth.user_roles)
    → Unmoved role_id auth (record auth { user_roles = rows })
unfolding lock_creator_for_update
assigned-Unmoved role_id rows auth typed same = record {
  same_roles = refl;
  same_next = refl;
  typed = typed;
  owners = λ e o found. found;
  holders = same;
}

one_name :
    (s : String) (p q : Bool)
    → (p && str_eq s "creator") ≡ true
    → (q && str_eq s "editor") ≡ true
    → false ≡ true
one_name s p q creator editor =
    let a : s ≡ "creator" = (str_eq_iff s "creator").0 (ground arith) in
    let b : str_eq s "editor" ≡ true = ground arith in rw a at b

-- The role of an editor is not that of a creator.
editor-other :
    (role_id editor_id : ℕ) (auth : Authority)
    → Governed role_id auth
    → role_id_named ScopeType.event "editor" auth ≡ ok editor_id
    → (editor_id == role_id) ≡ false
unfolding role_id_named
editor-other role_id editor_id auth g named =
    elim (Option-cases (
      fetch (λ (r : RoleRow). same_type r.scope_type ScopeType.event && str_eq r.name "editor")
        auth.roles)) [
          | inl gone ↦ absurd (let e = rw (gone, role_id_named) at named in cc)
          | inr (r, there) ↦
              let e = rw (there, role_id_named) at named in
              let at : r.id ≡ editor_id = cc in
              let (own, tested) = All-fetch (OwnRole role_id) _ auth.roles g.only there in
              elim (Bool-cases (editor_id == role_id)) [
                | inl same ↦ absurd (
                    let no =
                      one_name r.name _ _ (own (at ∙ (==_iff editor_id role_id).0 same)) tested in
                    cc)
                | inr differs ↦ differs
              ]
        ]

pub assign_editor-Unmoved :
    (role_id target event_id : ℕ) (auth auth' : Authority)
    → Governed role_id auth
    → assign_editor ScopeType.event target event_id auth ≡ ok auth'
    → Unmoved role_id auth auth'
unfolding assign_editor
assign_editor-Unmoved role_id target event_id auth auth' g h =
    let (editor_id, named, h1) = >>=-eq_ok (role_id_named ScopeType.event "editor" auth) _ h in
    let other = editor-other role_id editor_id auth g named in
    elim (assign_role-cases ScopeType.event editor_id target event_id auth) [
      | inl (held, same) ↦
          let same_auth : auth ≡ auth' = ok_inj (sym same ∙ h1) in
          rw (← same_auth) (elsewhere-Unmoved role_id auth auth g refl refl refl refl)
      | inr (inl (known, added)) ↦
          let done : with_row ScopeType.event target editor_id event_id auth ≡ auth' =
            ok_inj (sym added ∙ h1) in
          rw (← done) (
            assigned-Unmoved role_id _ auth
              (All-append (HasType ScopeType.event role_id) auth.user_roles _ g.agree.0
                (λ _. refl, tt))
              (λ e u. added_other ScopeType.event editor_id target event_id auth role_id e u other))
      | inr (inr (unknown, failed)) ↦ absurd (let no = rw failed at h1 in cc)
    ]

pub revoke_editor-Unmoved :
    (role_id target event_id : ℕ) (auth auth' : Authority)
    → Governed role_id auth
    → revoke_editor ScopeType.event target event_id auth ≡ ok auth'
    → Unmoved role_id auth auth'
unfolding revoke_editor
revoke_editor-Unmoved role_id target event_id auth auth' g h =
    let (editor_id, named, h1) = >>=-eq_ok (role_id_named ScopeType.event "editor" auth) _ h in
    let other = editor-other role_id editor_id auth g named in
    let gone = is_assignment ScopeType.event target editor_id event_id in
    rw (← ok_inj h1) (
      assigned-Unmoved role_id (delete gone auth.user_roles) auth
        (All-delete (HasType ScopeType.event role_id) gone auth.user_roles g.agree.0)
        (λ e u. revoked_other ScopeType.event editor_id target event_id auth role_id e u other))

no_global : (h a c : Bool) → (h || (((a && false) && c) || false)) ≡ h
no_global h a c = ground arith

granted-holds :
    (role_id target granted e u : ℕ) (rows : List UserRoleRow)
    → holds ScopeType.event role_id e u (grant_global target granted rows)
      ≡ holds ScopeType.event role_id e u rows
unfolding grant_global exists_row
granted-holds role_id target granted e u rows =
    elim (Bool-cases (exists_row (at_global target granted) rows)) [
      | inl there ↦ rw there refl
      | inr fresh ↦
          rw fresh
            (exists_row-append (is_assignment ScopeType.event u role_id e) rows _ ∙ no_global _ _ _)
    ]

dropped-holds :
    (role_id target e u : ℕ) (rows : List UserRoleRow)
    → holds ScopeType.event role_id e u (delete (is_global_role target) rows)
      ≡ holds ScopeType.event role_id e u rows
dropped-holds role_id target e u rows =
    exists_row-delete (is_assignment ScopeType.event u role_id e) (is_global_role target) rows
    ∙ exists_row-cong _ (is_assignment ScopeType.event u role_id e) rows (λ r.
      kept r.scope_type (r.user_id == target) (is_null r.scope_id) (at_assignment u role_id e r))
  where
    kept :
        (kind : ScopeType) (a b c : Bool)
        → (not (a && (same_type kind ScopeType.global && b))
            && (c && same_type kind ScopeType.event))
          ≡ (c && same_type kind ScopeType.event)
    kept ScopeType.global a b c = ground arith
    kept ScopeType.event a b c = ground arith
    kept ScopeType.group a b c = ground arith

granted-typed :
    (role_id target granted : ℕ) (rows : List UserRoleRow)
    → (granted == role_id) ≡ false
    → All (HasType ScopeType.event role_id) rows
    → All (HasType ScopeType.event role_id) (grant_global target granted rows)
unfolding grant_global
granted-typed role_id target granted rows other typed =
    elim (Bool-cases (exists_row (at_global target granted) rows)) [
      | inl there ↦ rw there typed
      | inr fresh ↦ rw fresh (
          All-append (HasType ScopeType.event role_id) rows _ typed
            ((λ same. absurd (ground arith)), tt))
    ]

-- A global role is not that of an event's creator.
global-other :
    (role_id : ℕ) (role : String) (auth : Authority) (r : RoleRow)
    → Governed role_id auth
    → fetch (is_named_global role) auth.roles ≡ some r
    → (r.id == role_id) ≡ false
global-other role_id role auth r g there =
    let (own, tested) = All-fetch (OwnRole role_id) _ auth.roles g.only there in
    elim (Bool-cases (r.id == role_id)) [
      | inl same ↦
          absurd
            (let no = two_kinds r.scope_type _ _ tested (own ((==_iff r.id role_id).0 same)) in cc)
      | inr differs ↦ differs
    ]
  where
    two_kinds :
        (kind : ScopeType) (p q : Bool)
        → (same_type kind ScopeType.global && p) ≡ true
        → (same_type kind ScopeType.event && q) ≡ true
        → false ≡ true
    two_kinds ScopeType.global p q a b = ground arith
    two_kinds ScopeType.event p q a b = ground arith
    two_kinds ScopeType.group p q a b = ground arith

pub set_role-Unmoved :
    (role_id target : ℕ) (role : String) (auth auth' : Authority) {found : Option (Unit {0})}
    → Governed role_id auth
    → set_role target role auth ≡ ok (found, auth')
    → Unmoved role_id auth auth'
unfolding set_role
set_role-Unmoved role_id target role auth auth' g h =
    elim (Option-cases (fetch (is_named_global role) auth.roles)) [
      | inl gone ↦ absurd (let no = rw gone at h in cc)
      | inr (r, there) ↦ elim (Bool-cases (exists_row (has_user_id target) auth.users)) [
        | inl known ↦
            let rows = delete (is_global_role target) auth.user_roles in
            let e = rw known at (rw there at h) in
            let done : record auth { user_roles = grant_global target r.id rows } ≡ auth' = cc in
            rw (← done) (
              assigned-Unmoved role_id (grant_global target r.id rows) auth
                (granted-typed role_id target r.id rows (global-other role_id role auth r g there) (
                  All-delete (HasType ScopeType.event role_id) (is_global_role target)
                    auth.user_roles g.agree.0))
                (λ e u.
                  granted-holds role_id target r.id e u rows
                  ∙ dropped-holds role_id target e u auth.user_roles))
        | inr unknown ↦
            let e = rw unknown at (rw there at h) in
            let done : auth ≡ auth' = cc in
            rw (← done) (elsewhere-Unmoved role_id auth auth g refl refl refl refl)
      ]
    ]
