-- ===== src/Store/Steps.antt =====
-- What a transaction has been through when it succeeds, one statement at a time.
use ymatch.Common.{◌≡◌, refl, Bool, true, false, Option, none, some, if◌then◌else◌}
use ymatch.Error.{AppError, Result, ok, err}
use ymatch.Store.{Db, Tx, bind_result, pure, fail, lift, or_fail, ◌>>=◌, ◌>>◌}

module _ {A B : Type 0} where
  bind_result-eq_ok :
      (x : Result (A × Db)) (f : A → Tx B) (r : B × Db)
      → bind_result x f ≡ ok r
      → (a : A) × (db : Db) × (x ≡ ok (a, db)) × (f a db ≡ ok r)
  bind_result-eq_ok (ok (a, db)) f r e = (a, db, refl, e)
  bind_result-eq_ok (err e') f r e = cc

  pub >>=-eq_ok :
      (m : Tx A) (f : A → Tx B) (db : Db) {r : B × Db}
      → (m >>= f) db ≡ ok r
      → (a : A) × (db' : Db) × (m db ≡ ok (a, db')) × (f a db' ≡ ok r)
  >>=-eq_ok m f db {r} e = bind_result-eq_ok (m db) f r e

  pub lift-eq_ok :
      (x : Result A) (f : A → Tx B) (db : Db) {r : B × Db}
      → (lift x >>= f) db ≡ ok r
      → (a : A) × (x ≡ ok a) × (f a db ≡ ok r)
  lift-eq_ok (ok a) f db e = (a, refl, e)
  lift-eq_ok (err e') f db e = cc

  pub or_fail-eq_ok :
      (x : Option A) (fault : AppError) (f : A → Tx B) (db : Db) {r : B × Db}
      → (or_fail x fault >>= f) db ≡ ok r
      → (a : A) × (x ≡ some a) × (f a db ≡ ok r)
  or_fail-eq_ok (some a) fault f db e = (a, refl, e)
  or_fail-eq_ok none fault f db e = cc

module _ {B : Type 0} where
  pub guard-eq_ok :
      (t : Bool) (fault : AppError) (k : Tx B) (db : Db) {r : B × Db}
      → ((if t then pure tt else fail fault) >> k) db ≡ ok r
      → (t ≡ true) × (k db ≡ ok r)
  guard-eq_ok true fault k db e = (refl, e)
  guard-eq_ok false fault k db e = cc

  -- A guard that is written the other way round.
  pub refuse-eq_ok :
      (t : Bool) (fault : AppError) (k : Tx B) (db : Db) {r : B × Db}
      → ((if t then fail fault else pure tt) >> k) db ≡ ok r
      → (t ≡ false) × (k db ≡ ok r)
  refuse-eq_ok false fault k db e = (refl, e)
  refuse-eq_ok true fault k db e = cc
