-- ===== src/Api/Gateway.antt =====
-- The middleware of backend/src/routes.rs: the address of a client and the limits. The parsers of addresses and of
-- numbers, `trim` and the limiter of the governor crate are parameters.
use ymatch.Common.{ℕ, zero, suc, String, Bool, Option, none, some, ◌==◌, if◌then◌else◌}
use Prim.Native.Char.{code}

-- What stands before the first comma.
unfoldable pub before_comma : String → String
before_comma String.[] = String.[]
before_comma (String.◌∷◌ c s) =
    let rest = before_comma s in if code c == b',' then String.[] else String.◌∷◌ c rest

module _ {Address : Type 0} where
  abbrev or_zero : Option Address → Address → Address
  or_zero none zero_address = zero_address
  or_zero (some address) zero_address = address

  abbrev parsed : (String → String) → (String → Option Address) → Option String → Option Address
  parsed trim parse none = none
  parsed trim parse (some value) = parse (trim (before_comma value))

  -- The header as text, if it is there and is text.
  unfoldable pub extract_client_ip :
      (String → String) → (String → Option Address) → Address → Option String → Address
  unfolding before_comma
  extract_client_ip trim parse zero_address forwarded_for =
      or_zero (parsed trim parse forwarded_for) zero_address

  -- `allows` is `check_key` of the limiter; the answer of a request that is refused is 429.
  unfoldable pub rate_limit {ℓ} :
      {Response : Type ℓ}
      → (Address → Bool)
      → (String → String)
      → (String → Option Address)
      → Address
      → Option String
      → Response
      → (ℕ → String → Response)
      → Response
  unfolding extract_client_ip
  rate_limit allows trim parse zero_address forwarded_for answer refuse =
      if allows (extract_client_ip trim parse zero_address forwarded_for)
      then answer
      else refuse 429 "Too Many Requests"

abbrev positive : Option ℕ → ℕ → ℕ
positive none default = default
positive (some zero) default = default
positive (some (suc n)) default = suc n

abbrev parsed_number : (String → Option ℕ) → Option String → Option ℕ
parsed_number parse none = none
parsed_number parse (some text) = parse text

-- `env_rate_limit`: the variable, if it is a number above 0.
unfoldable pub env_rate_limit : (String → Option ℕ) → Option String → ℕ → ℕ
env_rate_limit parse variable default = positive (parsed_number parse variable) default
