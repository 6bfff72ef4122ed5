-- ===== src/Rbac/Holders.antt =====
-- Who holds a creator's role after its transfer.
use ymatch.Common.Rows.{All-append, All-delete}
use ymatch.Common.Exists.{exists_row-and, exists_row-cong, exists_row-delete, exists_row-append}
use ymatch.Error.{ok}
use ymatch.Common.{
  ==_self, ==_iff, ℕ, ◌≡◌, refl, sym, ap, ◌∙◌, ◌⊎◌, inl, inr, Bool, true, false, not, ◌&&◌, ◌||◌,
  Option, none, some, List, [], ◌∷◌, ◌++◌, arith, ◌==◌, Bool-cases, Option-cases, exists_row,
  delete, All,
}
use ymatch.Rbac.{same_type, UserRoleRow, Authority, ScopeType}
use ymatch.Rbac.Transfer.{
  known_user, is_assignment, transfer_creator_role, creator_role_id, assign_creator, revoke_creator,
  assign_role, at_assignment,
}
use ymatch.Rbac.Service.{is_at}

-- The user holds the creator's role of the scope.
abbrev pub holds : ScopeType → ℕ → ℕ → ℕ → List UserRoleRow → Bool
holds kind role_id scope_id user_id rows =
    exists_row (is_assignment kind user_id role_id scope_id) rows

-- Rows of a role have its scope type.
abbrev pub HasType : ScopeType → ℕ → UserRoleRow → Type 0
HasType kind role_id row = row.role_id ≡ role_id → row.scope_type ≡ kind

-- Nobody but the owner holds the creator's role of the scope, and the owner does.
abbrev pub OnlyOwner : ScopeType → ℕ → ℕ → Option ℕ → List UserRoleRow → Type 0
OnlyOwner kind role_id scope_id owner rows =
    (u : ℕ) → holds kind role_id scope_id u rows ≡ is_at owner u

both_false : (b c : Bool) → (b && false) ≡ (c && false)
both_false b c = ground arith

middle_false : (b c p q : Bool) → (b && ((p && false) && q)) ≡ (c && ((p && false) && q))
middle_false b c p q = ground arith

same_pair : (a b : ℕ) → (a == b) ≡ (b == a)
same_pair a b = ground arith

guarded :
    (x y p q : Bool)
    → (not (((x && p) && y) && q) && ((p && true) && q)) ≡ (not (x && y) && ((p && true) && q))
guarded x y p q = ground arith

both_at :
    (a g u m s t : ℕ) (p q : Bool)
    → (not (((a == g && p) && m == s) && q) && (((a == u && p) && m == t) && q))
      ≡ (not (g == u && s == t) && (((a == u && p) && m == t) && q))
both_at a g u m s t p q = elim (Bool-cases (a == u)) [
  | inl user ↦ elim (Bool-cases (m == t)) [
    | inl scope ↦
        rw (user, scope)
          (rw ((==_iff a u).0 user, (==_iff m t).0 scope)
            (rw (same_pair g u, same_pair s t) (guarded (u == g) (t == s) p q)))
    | inr other ↦ rw (user, other) (middle_false _ _ p q)
  ]
  | inr other ↦ rw other (both_false _ _)
]

pub revoked-holds :
    (kind : ScopeType) (role_id scope_id gone sid u : ℕ) (rows : List UserRoleRow)
    → holds kind role_id sid u (delete (is_assignment kind gone role_id scope_id) rows)
      ≡ (not (gone == u && scope_id == sid) && holds kind role_id sid u rows)
revoked-holds kind role_id scope_id gone sid u rows =
    exists_row-delete (is_assignment kind u role_id sid) (is_assignment kind gone role_id scope_id)
      rows
    ∙ exists_row-cong
        (λ r.
          not (is_assignment kind gone role_id scope_id r) && is_assignment kind u role_id sid r)
        (λ r. not (gone == u && scope_id == sid) && is_assignment kind u role_id sid r) rows
        (λ r. elim (Option-cases r.scope_id) [
          | inl none_set ↦ rw none_set (
              middle_false _ _ (r.user_id == u && r.role_id == role_id)
                (same_type r.scope_type kind))
          | inr (at, set) ↦ rw set (
              both_at r.user_id gone u at scope_id sid (r.role_id == role_id)
                (same_type r.scope_type kind))
        ])
    ∙ exists_row-and (not (gone == u && scope_id == sid)) (is_assignment kind u role_id sid) rows

pub same_type_self : (k : ScopeType) → same_type k k ≡ true
same_type_self ScopeType.global = refl
same_type_self ScopeType.event = refl
same_type_self ScopeType.group = refl

and_true : (b : Bool) → b ≡ (b && true)
and_true b = ground arith

-- Of rows with the role's scope type, an assignment is one for the unique key.
no_role : (a b c : Bool) → ((a && false) && b) ≡ (((a && false) && b) && c)
no_role a b c = ground arith

pub typed-assignment :
    (kind : ScopeType) (role_id sid u : ℕ) (rows : List UserRoleRow)
    → All (HasType kind role_id) rows
    → exists_row (at_assignment u role_id sid) rows ≡ holds kind role_id sid u rows
unfolding exists_row
typed-assignment kind role_id sid u [] typed = refl
typed-assignment kind role_id sid u (row ∷ rows) typed =
    rw (typed-assignment kind role_id sid u rows typed.1) (
      ap (λ b. b || holds kind role_id sid u rows)
        (elim (Bool-cases (row.role_id == role_id)) [
          | inl role ↦
              rw (typed.0 ((==_iff row.role_id role_id).0 role))
                (rw (same_type_self kind) (and_true _))
          | inr other ↦
              rw other (
                no_role (row.user_id == u) (is_at row.scope_id sid) (same_type row.scope_type kind))
        ]))

one_more : (h a b : Bool) → (h || ((((a && true) && b) && true) || false)) ≡ ((a && b) || h)
one_more h a b = ground arith

pub new-holds :
    (kind : ScopeType) (role_id scope_id new sid u : ℕ) (rows : List UserRoleRow)
    → holds kind role_id sid u (
        rows
        ++ record { user_id = new; role_id = role_id; scope_type = kind; scope_id = some scope_id }
          ∷ [])
      ≡ ((new == u && scope_id == sid) || holds kind role_id sid u rows)
unfolding exists_row
new-holds kind role_id scope_id new sid u rows =
    exists_row-append (is_assignment kind u role_id sid) rows _
    ∙ rw (==_self role_id, same_type_self kind) (one_more _ (new == u) (scope_id == sid))

abbrev pub with_row : ScopeType → ℕ → ℕ → ℕ → Authority → Authority
with_row kind new role_id scope_id auth = record auth {
  user_roles =
      auth.user_roles
      ++ record { user_id = new; role_id = role_id; scope_type = kind; scope_id = some scope_id }
        ∷ [];
}

pub assigned-cases :
    (kind : ScopeType) (role_id scope_id new : ℕ) (auth auth' : Authority)
    → assign_role kind new role_id scope_id auth ≡ ok auth'
    → ((exists_row (at_assignment new role_id scope_id) auth.user_roles ≡ true) × (auth ≡ auth'))
      ⊎ (with_row kind new role_id scope_id auth ≡ auth')
unfolding assign_role
assigned-cases kind role_id scope_id new auth auth' h =
    elim (Bool-cases (exists_row (at_assignment new role_id scope_id) auth.user_roles)) [
      | inl held ↦ inl (held, ground (arith, held))
      | inr fresh ↦ elim (Bool-cases (known_user new auth)) [
        | inl known ↦ inr (ground (arith, fresh, known))
        | inr unknown ↦ absurd (ground (arith, fresh, unknown))
      ]
    ]

already : (a b h : Bool) → (a ≡ true → b ≡ true → h ≡ true) → h ≡ ((a && b) || h)
already true true h f = f refl refl
already true false h f = refl
already false b h f = refl

pub assigned-holds :
    (kind : ScopeType) (role_id scope_id new sid u : ℕ) (auth auth' : Authority)
    → All (HasType kind role_id) auth.user_roles
    → assign_role kind new role_id scope_id auth ≡ ok auth'
    → holds kind role_id sid u auth'.user_roles
      ≡ ((new == u && scope_id == sid) || holds kind role_id sid u auth.user_roles)
assigned-holds kind role_id scope_id new sid u auth auth' typed h =
    elim (assigned-cases kind role_id scope_id new auth auth' h) [
      | inl (held, same) ↦ rw (← same) (
          already (new == u) (scope_id == sid) _ (λ user scope.
            rw (← (==_iff new u).0 user, ← (==_iff scope_id sid).0 scope)
              (sym (typed-assignment kind role_id scope_id new auth.user_roles typed) ∙ held)))
      | inr added ↦ rw (← added) (new-holds kind role_id scope_id new sid u auth.user_roles)
    ]

revoked-eq_ok :
    (kind : ScopeType) (role_id scope_id gone : ℕ) (auth : Authority)
    → creator_role_id kind auth ≡ ok role_id
    → revoke_creator kind gone scope_id auth
      ≡ ok (record auth {
        user_roles = delete (is_assignment kind gone role_id scope_id) auth.user_roles;
      })
unfolding revoke_creator
revoked-eq_ok kind role_id scope_id gone auth role = rw role refl

pub assigned-eq_ok :
    (kind : ScopeType) (role_id scope_id new : ℕ) (auth : Authority)
    → creator_role_id kind auth ≡ ok role_id
    → assign_creator kind new scope_id auth ≡ assign_role kind new role_id scope_id auth
unfolding assign_creator
assigned-eq_ok kind role_id scope_id new auth role = rw role refl

-- The tables that an assignment leaves, and its rows of the role.
pub assigned_frame :
    (kind : ScopeType) (role_id scope_id new : ℕ) (auth auth' : Authority)
    → All (HasType kind role_id) auth.user_roles
    → assign_role kind new role_id scope_id auth ≡ ok auth'
    → (auth'.events ≡ auth.events)
      × (auth'.roles ≡ auth.roles)
      × All (HasType kind role_id) auth'.user_roles
assigned_frame kind role_id scope_id new auth auth' typed h =
    elim (assigned-cases kind role_id scope_id new auth auth' h) [
      | inl (_, same) ↦ rw (← same) (refl, refl, typed)
      | inr added ↦
          rw (← added)
            (refl, refl, All-append (HasType kind role_id) auth.user_roles _ typed (λ _. refl, tt))
    ]

-- The rows after the revocation, without the previous creator's.
abbrev pub left_rows : ScopeType → ℕ → ℕ → Option ℕ → List UserRoleRow → List UserRoleRow
left_rows kind role_id scope_id none rows = rows
left_rows kind role_id scope_id (some gone) rows =
    delete (is_assignment kind gone role_id scope_id) rows

pub transferred-eq :
    (kind : ScopeType) (role_id scope_id : ℕ) (previous : Option ℕ) (new : ℕ) (auth : Authority)
    → creator_role_id kind auth ≡ ok role_id
    → is_at previous new ≡ false
    → transfer_creator_role kind scope_id previous new auth
      ≡ assign_role kind new role_id scope_id
          (record auth { user_roles = left_rows kind role_id scope_id previous auth.user_roles })
unfolding transfer_creator_role creator_role_id
transferred-eq kind role_id scope_id none new auth role other =
    assigned-eq_ok kind role_id scope_id new auth role
transferred-eq kind role_id scope_id (some gone) new auth role other =
    rw (other, revoked-eq_ok kind role_id scope_id gone auth role)
      (assigned-eq_ok kind role_id scope_id new
        (record auth { user_roles = left_rows kind role_id scope_id (some gone) auth.user_roles })
        role)

pub left_rows-holds :
    (kind : ScopeType) (role_id scope_id : ℕ) (previous : Option ℕ) (sid u : ℕ)
    (rows : List UserRoleRow)
    → holds kind role_id sid u (left_rows kind role_id scope_id previous rows)
      ≡ (not (is_at previous u && scope_id == sid) && holds kind role_id sid u rows)
left_rows-holds kind role_id scope_id none sid u rows = refl
left_rows-holds kind role_id scope_id (some gone) sid u rows =
    revoked-holds kind role_id scope_id gone sid u rows

pub left_rows-typed :
    (kind : ScopeType) (role_id scope_id : ℕ) (previous : Option ℕ) (rows : List UserRoleRow)
    → All (HasType kind role_id) rows
    → All (HasType kind role_id) (left_rows kind role_id scope_id previous rows)
left_rows-typed kind role_id scope_id none rows typed = typed
left_rows-typed kind role_id scope_id (some gone) rows typed =
    All-delete (HasType kind role_id) (is_assignment kind gone role_id scope_id) rows typed
