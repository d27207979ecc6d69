-- ===== src/Auth/Format.antt =====
-- auth.py: the headers of a signed request and the checks of their form.
use ea_trading_system.Prelude.{
  ℤ, String, Bool, ◌&&◌, not, ◌==◌, Option, none, some, List, [], ◌∷◌, all, if◌then◌else◌,
}
use ea_trading_system.Errors.{Exc, Result, ok, err, api, require, ◌>>=◌, ◌>>◌}
use ea_trading_system.Python.{Python, Uuid, full_match, is_identifier, is_hex}
use ea_trading_system.Validation.Fields.{is_v4}

-- The headers of a request, name and value, in order.
abbrev pub Headers : Type 0
Headers = List (String × String)

-- `values.get(name)` of a dictionary that is built in order: the last entry of a name stays.
abbrev pub last_value : String → Headers → Option String
last_value k [] = none
last_value k ((j, v) ∷ rest) = elim (last_value k rest) [
  | some x ↦ some x
  | none ↦ if j == k then some v else none
]

abbrev pub required : List String
required =
    "x-ea-key-id" ∷ "x-ea-timestamp" ∷ "x-ea-nonce" ∷ "x-ea-signature" ∷ "idempotency-key" ∷ []

abbrev present : Option String → Bool
present none = Bool.false
present (some v) = not (v == "")

-- `values[name]`, once it is known to be there.
abbrev text_of : Option String → String
text_of none = ""
text_of (some v) = v

pub record Credentials : Type 0 where
  pub key_id : String
  pub nonce : String
  pub signature : String
  pub timestamp : String

abbrev bad_format : String → Exc
bad_format message = api 401 "INVALID_AUTH_FORMAT" message

module _ {F : Type 0} (p : Python F) where
  open p use {lower, strip, uuid, int}

  -- `_headers`
  unfoldable pub normalized : Headers → Headers
  normalized [] = []
  normalized ((k, v) ∷ rest) = (lower k, strip v) ∷ normalized rest

  unfoldable pub read_credentials : Headers → Result Credentials
  read_credentials headers =
      let values = normalized headers in
      if all (λ name. present (last_value name values)) required
      then ok (record {
        key_id = text_of (last_value "x-ea-key-id" values);
        nonce = lower (text_of (last_value "x-ea-nonce" values));
        signature = text_of (last_value "x-ea-signature" values);
        timestamp = text_of (last_value "x-ea-timestamp" values);
      })
      else err (api 401 "AUTH_HEADERS_MISSING" "required authentication headers are missing")

  -- The two ValueErrors of `uuid.UUID(nonce)` and `int(...)`.
  abbrev parsed : Option Uuid → Option ℤ → Result (Uuid × ℤ)
  parsed none t = err (bad_format "timestamp or nonce is invalid")
  parsed (some u) none = err (bad_format "timestamp or nonce is invalid")
  parsed (some u) (some t) = ok (u, t)

  -- The checks of the form of the credentials; the result is the signed time.
  unfoldable pub check_format : Credentials → Result ℤ
  check_format c = do
    require (full_match is_identifier 1 64 c.key_id) (api 401 "INVALID_KEY_ID" "key id is invalid")
    (u, timestamp) ← parsed (uuid c.nonce) (int c.timestamp)
    require (u.canonical == c.nonce && is_v4 u && full_match is_hex 64 64 c.signature)
        (bad_format "nonce or signature is invalid")
    ok timestamp
