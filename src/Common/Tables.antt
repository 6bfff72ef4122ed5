-- ===== src/Common/Tables.antt =====
-- Tables as lists of rows: what SELECT, UPDATE and DELETE with a WHERE test do to one.
use Prim.Native.Nat.{ℕ, suc}
use mathlib.Core.Bool.{Bool, false, ◌||◌}
use mathlib.Core.Option.{Option, none, some}
use mathlib.Core.List.{List, [], ◌∷◌}
use ymatch.Common.Int.{ℤ, pos, ◌+ℤ◌}
use ymatch.Common.Tests.{if◌then◌else◌}

module _ {ℓ} {A : Type ℓ} where
  -- SELECT … WHERE test
  unfoldable pub select : (A → Bool) → List A → List A
  select test [] = []
  select test (r ∷ rs) = if test r then r ∷ select test rs else select test rs

  -- The first row, as `fetch_optional` returns it.
  unfoldable pub fetch : (A → Bool) → List A → Option A
  fetch test [] = none
  fetch test (r ∷ rs) = if test r then some r else fetch test rs

  -- EXISTS (SELECT …)
  unfoldable pub exists_row : (A → Bool) → List A → Bool
  exists_row test [] = false
  exists_row test (r ∷ rs) = test r || exists_row test rs

  -- UPDATE … SET change WHERE test
  unfoldable pub update : (A → Bool) → (A → A) → List A → List A
  update test change [] = []
  update test change (r ∷ rs) = (if test r then change r else r) ∷ update test change rs

  -- DELETE … WHERE test
  unfoldable pub delete : (A → Bool) → List A → List A
  delete test [] = []
  delete test (r ∷ rs) = if test r then delete test rs else r ∷ delete test rs

  abbrev pub All {κ} : (A → Type κ) → List A → Type κ
  All P [] = Unit
  All P (r ∷ rs) = P r × All P rs

  abbrev pub length : List A → ℕ
  length [] = 0
  length (r ∷ rs) = suc (length rs)

  -- SUM(value)
  unfoldable pub total : (A → ℤ) → List A → ℤ
  total value [] = pos 0
  total value (r ∷ rs) = value r +ℤ total value rs
