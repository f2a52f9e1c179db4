-- ===== src/Error.antt =====
-- src/error.rs: the error type, and what a client is answered with. A message is a native string.
pub mod Status
pub mod Action
use enigma_relay.Base.{◌≡◌, refl, ◌⊎◌, inl, inr, Bool, Option, none, String}

pub data EnigmaRelayError : Type 0 where
  invalid_input : String → EnigmaRelayError
  rate_limited : EnigmaRelayError
  duplicate : EnigmaRelayError
  quota_exceeded : EnigmaRelayError
  not_found : EnigmaRelayError
  storage_error : String → EnigmaRelayError
  config : String → EnigmaRelayError
  tls : String → EnigmaRelayError
  disabled : String → EnigmaRelayError
  internal : String → EnigmaRelayError

pub data Result {ℓ} (A : Type ℓ) : Type ℓ where
  ok : A → Result A
  err : EnigmaRelayError → Result A

infixl 5 ◌>>=◌ ◌>>◌
-- `?` at the end of an expression: an error is returned at once.
abbrev pub ◌>>=◌ {ℓ κ} : {A : Type ℓ} → {B : Type κ} → Result A → (A → Result B) → Result B
err error >>= next = err error
ok value >>= next = next value

abbrev pub ◌>>◌ {κ} : {B : Type κ} → Result (Unit {0}) → Result B → Result B
first >> second = first >>= λ done. second

-- To split on a computed result and keep the equation.
pub Result-cases {ℓ} :
    {A : Type ℓ} (r : Result A) → ((a : A) × (r ≡ ok a)) ⊎ ((e : EnigmaRelayError) × (r ≡ err e))
Result-cases (ok a) = inl (a, refl)
Result-cases (err e) = inr (e, refl)

-- `if test { return Err(e); }`
abbrev pub reject : Bool → EnigmaRelayError → Result (Unit {0})
reject Bool.true e = err e
reject Bool.false e = ok tt

-- `o.ok_or(e)`, and `r.map_err(|_| e)` where the error of `r` is dropped.
abbrev pub ok_or {ℓ} : {A : Type ℓ} → Option A → EnigmaRelayError → Result A
ok_or none e = err e
ok_or (Option.some a) e = ok a

pub ok_or-some {ℓ} :
    {A : Type ℓ} (o : Option A) (e : EnigmaRelayError) (a : A)
    → ok_or o e ≡ ok a
    → o ≡ Option.some a
ok_or-some none e a h = cc
ok_or-some (Option.some b) e a h = cc

-- The result of a call of another crate.
pub data Attempt {ℓ} (A : Type ℓ) : Type ℓ where
  done : A → Attempt A
  failed : String → Attempt A

-- Of a chain with a result, each step has one.
pub then_ok {ℓ κ} :
    {A : Type ℓ} {B : Type κ} (r : Result A) (k : A → Result B) (b : B)
    → (r >>= k) ≡ ok b
    → (a : A) × (r ≡ ok a) × (k a ≡ ok b)
then_ok (ok a) k b e = (a, refl, e)
then_ok (err error) k b e = cc

-- `Value` is the type of JSON values, of serde_json.
pub record ErrorBody (Value : Type 0) : Type 0 where
  pub code : String
  pub message : String
  pub details : Option Value

pub record ErrorResponse (Value : Type 0) : Type 0 where
  pub error : ErrorBody Value

abbrev body : {Value : Type 0} → String → String → ErrorResponse Value
body code message = record { error = record { code = code; message = message; details = none } }

unfoldable pub into_response : {Value : Type 0} → EnigmaRelayError → ErrorResponse Value
into_response (invalid_input msg) = body "invalid_input" msg
into_response rate_limited = body "rate_limited" "rate limit exceeded"
into_response duplicate = body "duplicate" "duplicate message"
into_response quota_exceeded = body "quota_exceeded" "recipient quota exceeded"
into_response not_found = body "not_found" "not found"
into_response (storage_error msg) = body "storage_error" msg
into_response (config msg) = body "config_error" msg
into_response (tls msg) = body "tls_error" msg
into_response (disabled msg) = body "feature_disabled" msg
into_response (internal msg) = body "internal_error" msg

-- `From` for the errors of serde_json, of std::io and of sled: their text is kept.
abbrev pub from_serde_json : String → EnigmaRelayError
from_serde_json text = internal text

abbrev pub from_io : String → EnigmaRelayError
from_io text = internal text

abbrev pub from_sled : String → EnigmaRelayError
from_sled text = storage_error text
