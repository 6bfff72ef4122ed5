-- ===== src/Error.antt =====
-- backend/src/error.rs: the error type of every service and handler, its HTTP status, and what the
-- database's errors become. `Result` is Rust's, with `?` as bind.
use ymatch.Common.{
  ◌≡◌, refl, ℕ, String, Bool, true, false, Option, none, some, str_eq, if◌then◌else◌,
}

pub data AppError : Type 0 where
  bad_request unauthorized forbidden not_found conflict internal : String → AppError

-- `Result<T, AppError>`
pub data Result {κ} (T : Type κ) : Type κ where
  ok : T → Result T
  err : AppError → Result T

-- `Result::and_then`, with the continuation first.
abbrev pub and_then {κ μ} : {T : Type κ} {U : Type μ} → (T → Result U) → Result T → Result U
and_then next (ok value) = next value
and_then next (err fault) = err fault

infixl 5 ◌>>=◌
abbrev pub ◌>>=◌ {κ μ} : {T : Type κ} {U : Type μ} → Result T → (T → Result U) → Result U
result >>= next = and_then next result

infixl 5 ◌>>◌
abbrev pub ◌>>◌ {κ} : {U : Type κ} → Result (Unit {0}) → Result U → Result U
first >> second = and_then (λ _. second) first

-- `AppError::status_and_message`, the status by its number.
unfoldable pub status_and_message : AppError → ℕ × String
status_and_message (bad_request m) = (400, m)
status_and_message (unauthorized m) = (401, m)
status_and_message (forbidden m) = (403, m)
status_and_message (not_found m) = (404, m)
status_and_message (conflict m) = (409, m)
status_and_message (internal m) = (500, m)

abbrev is_500 : ℕ → Bool
is_500 status = ymatch.Common.◌==◌ status 500

-- `into_response`: the status and the body that the client sees. The log line is left out.
unfoldable pub into_response : AppError → ℕ × String
unfolding status_and_message
into_response e =
    let (status, message) = status_and_message e in
    if is_500 status then (status, "internal error") else (status, message)

-- `sqlx::Error`, with the texts of the cases that are not told apart.
pub data SqlxError : Type 0 where
  row_not_found : SqlxError
  database : Option String → String → SqlxError
  other : String → SqlxError

from_code : String → String → AppError
from_code code text =
    if str_eq code "23505"
    then conflict "Resource already exists"
    else if str_eq code "23503"
    then bad_request "Invalid request data"
    else if str_eq code "23514"
    then bad_request "Invalid request data"
    else internal text

-- `impl From<sqlx::Error> for AppError`
unfoldable pub from_sqlx : SqlxError → AppError
unfolding from_code
from_sqlx row_not_found = not_found "Resource not found"
from_sqlx (database (some code) text) = from_code code text
from_sqlx (database none text) = internal text
from_sqlx (other text) = internal text

-- The constraint violations that the modelled statements can meet.
abbrev pub unique_violation : AppError
unique_violation = conflict "Resource already exists"

abbrev pub constraint_violation : AppError
constraint_violation = bad_request "Invalid request data"

-- Inversion of a successful `?`: what came before it succeeded as well.
pub ok_inj {κ} : {T : Type κ} {a b : T} → ok a ≡ ok b → a ≡ b
ok_inj e = cc

pub >>=-eq_ok {κ μ} :
    {T : Type κ} {U : Type μ} (result : Result T) (next : T → Result U) {last : U}
    → (result >>= next) ≡ ok last
    → (value : T) × (result ≡ ok value) × (next value ≡ ok last)
>>=-eq_ok (err fault) next e = cc
>>=-eq_ok (ok value) next e = (value, refl, e)
