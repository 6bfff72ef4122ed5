-- ===== src/Common/Exists.antt =====
-- EXISTS over several tables: how it moves through joins, projections and disjunctions.
use ymatch.Common.{
  update, not, delete, ◌≡◌, refl, sym, inl, inr, Bool, false, ◌&&◌, ◌||◌, List, [], ◌∷◌, ◌++◌, map,
  arith, Bool-cases, select, exists_row,
}

module _ {ℓ} {A : Type ℓ} where
  pub exists_row-cong :
      (f g : A → Bool) (rs : List A) → ((r : A) → f r ≡ g r) → exists_row f rs ≡ exists_row g rs
  unfolding exists_row
  exists_row-cong f g [] h = refl
  exists_row-cong f g (r ∷ rs) h = rw (h r, exists_row-cong f g rs h) refl

  pub exists_row-or :
      (f g : A → Bool) (rs : List A)
      → exists_row (λ r. f r || g r) rs ≡ (exists_row f rs || exists_row g rs)
  unfolding exists_row
  exists_row-or f g [] = refl
  exists_row-or f g (r ∷ rs) = ground (arith, exists_row-or f g rs)

  pub exists_row-and :
      (b : Bool) (f : A → Bool) (rs : List A)
      → exists_row (λ r. b && f r) rs ≡ (b && exists_row f rs)
  unfolding exists_row
  exists_row-and b f [] = ground arith
  exists_row-and b f (r ∷ rs) = ground (arith, exists_row-and b f rs)

  pub exists_row-and_or :
      (f g h : A → Bool) (rs : List A)
      → exists_row (λ r. f r && (g r || h r)) rs
        ≡ (exists_row (λ r. f r && g r) rs || exists_row (λ r. f r && h r) rs)
  unfolding exists_row
  exists_row-and_or f g h [] = refl
  exists_row-and_or f g h (r ∷ rs) = ground (arith, exists_row-and_or f g h rs)

  pub exists_row-append :
      (f : A → Bool) (xs ys : List A)
      → exists_row f (xs ++ ys) ≡ (exists_row f xs || exists_row f ys)
  unfolding exists_row
  exists_row-append f [] ys = refl
  exists_row-append f (x ∷ xs) ys = ground (arith, exists_row-append f xs ys)

  pub exists_row-select :
      (f test : A → Bool) (rs : List A)
      → exists_row f (select test rs) ≡ exists_row (λ r. test r && f r) rs
  unfolding exists_row select
  exists_row-select f test [] = refl
  exists_row-select f test (r ∷ rs) = elim (Bool-cases (test r)) [
    | inl hit ↦ rw hit (rw (exists_row-select f test rs) refl)
    | inr miss ↦ rw miss (exists_row-select f test rs)
  ]

  pub exists_row-delete :
      (f test : A → Bool) (rs : List A)
      → exists_row f (delete test rs) ≡ exists_row (λ r. not (test r) && f r) rs
  unfolding exists_row delete
  exists_row-delete f test [] = refl
  exists_row-delete f test (r ∷ rs) = elim (Bool-cases (test r)) [
    | inl hit ↦ rw hit (exists_row-delete f test rs)
    | inr miss ↦ rw miss (rw (exists_row-delete f test rs) refl)
  ]

  pub exists_row-update :
      (f test : A → Bool) (change : A → A) (rs : List A)
      → ((r : A) → f (change r) ≡ f r)
      → exists_row f (update test change rs) ≡ exists_row f rs
  unfolding exists_row update
  exists_row-update f test change [] keep = refl
  exists_row-update f test change (r ∷ rs) keep = elim (Bool-cases (test r)) [
    | inl hit ↦ rw hit (rw (keep r, exists_row-update f test change rs keep) refl)
    | inr miss ↦ rw miss (rw (exists_row-update f test change rs keep) refl)
  ]

  pub exists_row-map {κ} :
      {B : Type κ} (f : A → Bool) (get : B → A) (rs : List B)
      → exists_row f (map get rs) ≡ exists_row (λ r. f (get r)) rs
  unfolding exists_row
  exists_row-map f get [] = refl
  exists_row-map f get (r ∷ rs) = rw (exists_row-map f get rs) refl

  pub exists_row-none : (rs : List A) → exists_row (λ _. false) rs ≡ false
  unfolding exists_row
  exists_row-none [] = refl
  exists_row-none (r ∷ rs) = exists_row-none rs

pub exists_row-swap {ℓ κ} :
    {A : Type ℓ} {B : Type κ} (f : A → B → Bool) (rs : List A) (ss : List B)
    → exists_row (λ r. exists_row (f r) ss) rs ≡ exists_row (λ s. exists_row (λ r. f r s) rs) ss
unfolding exists_row
exists_row-swap f [] ss = sym (exists_row-none ss)
exists_row-swap f (r ∷ rs) ss =
    rw (exists_row-swap f rs ss) (sym (exists_row-or (f r) (λ s. exists_row (λ r'. f r' s) rs) ss))
