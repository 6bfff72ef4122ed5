-- ===== src/Common/Rows.antt =====
-- How the table operations act on a row that a test picks, and on a property of every row.
use mathlib.Core.Option
use ymatch.Common.{
  ◌≡◌, refl, inl, inr, Bool, true, false, none, some, List, [], ◌∷◌, ◌++◌, arith, select, fetch,
  exists_row, update, delete, All, Bool-cases,
}

module _ {ℓ} {A : Type ℓ} where
  -- A change that keeps the test moves the row that the test finds.
  pub fetch-update_self :
      (test : A → Bool) (change : A → A) (rs : List A)
      → ((r : A) → test (change r) ≡ test r)
      → fetch test (update test change rs) ≡ Option.map change (fetch test rs)
  unfolding fetch update
  fetch-update_self test change [] keep = refl
  fetch-update_self test change (r ∷ rs) keep = elim (Bool-cases (test r)) [
    | inl hit ↦ rw hit (rw (keep r) (rw hit refl))
    | inr miss ↦ rw miss (rw miss (fetch-update_self test change rs keep))
  ]

  -- A change of rows that another test does not see leaves what that test finds.
  pub fetch-update_other :
      (test seen : A → Bool) (change : A → A) (rs : List A)
      → ((r : A) → test r ≡ true → (seen r ≡ false) × (seen (change r) ≡ false))
      → fetch seen (update test change rs) ≡ fetch seen rs
  unfolding fetch update
  fetch-update_other test seen change [] apart = refl
  fetch-update_other test seen change (r ∷ rs) apart = elim (Bool-cases (test r)) [
    | inl hit ↦
        rw hit
          (rw ((apart r hit).0, (apart r hit).1) (fetch-update_other test seen change rs apart))
    | inr miss ↦ rw miss (ground (arith, fetch-update_other test seen change rs apart))
  ]

  -- A change that a test cannot see leaves every lookup by it, up to the change.
  pub fetch-update_blind :
      (test seen : A → Bool) (change : A → A) (rs : List A)
      → ((r : A) → seen (change r) ≡ seen r)
      → fetch seen rs ≡ none
      → fetch seen (update test change rs) ≡ none
  unfolding fetch update
  fetch-update_blind test seen change [] keep gone = refl
  fetch-update_blind test seen change (r ∷ rs) keep gone =
      ground (arith, keep r, fetch-update_blind test seen change rs keep)

  pub All-update {κ} :
      (P : A → Type κ) (test : A → Bool) (change : A → A) (rs : List A)
      → ((r : A) → test r ≡ true → P r → P (change r))
      → All P rs
      → All P (update test change rs)
  unfolding update
  All-update P test change [] keep h = tt
  All-update P test change (r ∷ rs) keep h = elim (Bool-cases (test r)) [
    | inl hit ↦ rw hit (keep r hit h.0, All-update P test change rs keep h.1)
    | inr miss ↦ rw miss (h.0, All-update P test change rs keep h.1)
  ]

  pub All-append {κ} : (P : A → Type κ) (xs ys : List A) → All P xs → All P ys → All P (xs ++ ys)
  All-append P [] ys h k = k
  All-append P (x ∷ xs) ys h k = (h.0, All-append P xs ys h.1 k)

  pub All-mono {κ μ} :
      (P : A → Type κ) (Q : A → Type μ) (xs : List A) → ((x : A) → P x → Q x) → All P xs → All Q xs
  All-mono P Q [] f h = tt
  All-mono P Q (x ∷ xs) f h = (f x h.0, All-mono P Q xs f h.1)

  pub All-select {κ} :
      (P : A → Type κ) (test : A → Bool) (rs : List A) → All P rs → All P (select test rs)
  unfolding select
  All-select P test [] h = tt
  All-select P test (r ∷ rs) h = elim (Bool-cases (test r)) [
    | inl hit ↦ rw hit (h.0, All-select P test rs h.1)
    | inr miss ↦ rw miss (All-select P test rs h.1)
  ]

  pub All-delete {κ} :
      (P : A → Type κ) (test : A → Bool) (rs : List A) → All P rs → All P (delete test rs)
  unfolding delete
  All-delete P test [] h = tt
  All-delete P test (r ∷ rs) h = elim (Bool-cases (test r)) [
    | inl hit ↦ rw hit (All-delete P test rs h.1)
    | inr miss ↦ rw miss (h.0, All-delete P test rs h.1)
  ]

  -- What a lookup finds has the property that every row has, and passes the test.
  pub All-fetch {κ} :
      (P : A → Type κ) (test : A → Bool) (rs : List A) {r : A}
      → All P rs
      → fetch test rs ≡ some r
      → P r × (test r ≡ true)
  unfolding fetch
  All-fetch P test [] h e = absurd (ground arith)
  All-fetch P test (x ∷ rs) {r} h e = elim (Bool-cases (test x)) [
    | inl hit ↦ let same : x ≡ r = ground arith in rw (← same) (h.0, hit)
    | inr miss ↦ All-fetch P test rs h.1 (ground arith)
  ]

  pub fetch-append_none :
      (test : A → Bool) (xs ys : List A)
      → fetch test xs ≡ none
      → fetch test (xs ++ ys) ≡ fetch test ys
  unfolding fetch
  fetch-append_none test [] ys h = refl
  fetch-append_none test (x ∷ xs) ys h = ground (arith, fetch-append_none test xs ys)

  pub fetch-append_some :
      (test : A → Bool) (xs ys : List A) {r : A}
      → fetch test xs ≡ some r
      → fetch test (xs ++ ys) ≡ some r
  unfolding fetch
  fetch-append_some test [] ys h = cc
  fetch-append_some test (x ∷ xs) ys {r} h = ground (arith, fetch-append_some test xs ys {r = r})

  -- `EXISTS` and the first row agree.
  pub exists_row-false :
      (test : A → Bool) (rs : List A) → exists_row test rs ≡ false → fetch test rs ≡ none
  unfolding exists_row fetch
  exists_row-false test [] h = refl
  exists_row-false test (r ∷ rs) h = ground (arith, exists_row-false test rs)

  pub fetch-none :
      (test : A → Bool) (rs : List A) → fetch test rs ≡ none → exists_row test rs ≡ false
  unfolding exists_row fetch
  fetch-none test [] h = refl
  fetch-none test (r ∷ rs) h = ground (arith, fetch-none test rs)
