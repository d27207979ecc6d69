-- ===== src/Auth.antt =====
-- services/decision_api/src/decision_api/auth.py: the signature, the time window and the nonce of a
-- request.
pub mod Format
pub mod Window
pub mod Replay
use ea_trading_system.Prelude.{
  ℕ, ℤ, pos, ◌+ℤ◌, ◌-ℤ◌, abs, ◌*◌, String, ◌&◌, ◌==◌, Option, none, some, List, [], ◌∷◌, leb,
  one_of,
}
use ea_trading_system.Errors.{Exc, api, conditional_write_failed}
use ea_trading_system.Act.{Act, pure, raise, lift, catch, require, ◌>>=◌, ◌>>◌}
use ea_trading_system.Python.{Python}
use Format.{Headers, Credentials, read_credentials, check_format}

pub record SecretProvider (W : Type 0) : Type 0 where
  pub get_secret : String → Act W String

pub record ReplayStore (W : Type 0) : Type 0 where
  pub claim_nonce : String → String → ℤ → Act W (Unit {0})

pub record AuthContext : Type 0 where
  pub key_id : String
  pub timestamp : ℤ
  pub nonce : String
  pub body_hash : String

abbrev pub paths : List String
paths = "/v1/trade-decisions" ∷ "/v1/trade-events" ∷ "/v1/heartbeats" ∷ []

abbrev pub expired : Exc
expired = api 401 "REQUEST_TIMESTAMP_EXPIRED" "request timestamp is outside the allowed window"

abbrev pub bad_path : Exc
bad_path = api 401 "INVALID_AUTH_PATH" "signed path is invalid"

abbrev pub failed : Exc
failed = api 401 "AUTHENTICATION_FAILED" "authentication failed"

abbrev pub replayed : Exc
replayed = api 409 "REPLAY_DETECTED" "nonce has already been used"

-- `except Exception`, and `except ConditionalWriteFailed`
abbrev pub to_failed : {W A : Type 0} → Exc → Act W A
to_failed e = raise failed

abbrev pub to_replayed : {W A : Type 0} → Exc → Act W A
to_replayed conditional_write_failed = raise replayed
to_replayed other = raise other

module _ {F : Type 0} (p : Python F) where
  open p use {show_int, hmac_sha256, encode}

  abbrev pub canonical_text : String → ℤ → String → String → String
  canonical_text path timestamp nonce body_hash =
      "POST\n" & path & "\n" & show_int timestamp & "\n" & nonce & "\n" & body_hash

  abbrev pub expected_signature : String → String → ℤ → String → String → String
  expected_signature secret path timestamp nonce body_hash =
      hmac_sha256 (encode secret) (encode (canonical_text path timestamp nonce body_hash))

module _ {F W : Type 0} (p : Python F) (clock : Act W ℤ) (secrets : SecretProvider W)
    (store : ReplayStore W) where
  -- `clock` is `int(time.time())`.
  abbrev read_clock : Option ℤ → Act W ℤ
  read_clock none = clock
  read_clock (some now) = pure now

  unfoldable pub verify_request : Headers → List ℕ → Option ℤ → ℕ → String → Act W AuthContext
  verify_request headers raw_body now_epoch max_clock_skew_seconds canonical_path = do
    c ← lift (read_credentials p headers)
    timestamp ← lift (check_format p c)
    now ← read_clock now_epoch
    require (leb (abs (now -ℤ timestamp)) max_clock_skew_seconds) expired
    let body_hash = p.sha256 raw_body
    require (one_of paths canonical_path) bad_path
    secret ← catch (secrets.get_secret c.key_id) to_failed
    require (expected_signature p secret canonical_path timestamp c.nonce body_hash == c.signature)
        failed
    catch (store.claim_nonce c.key_id c.nonce (now +ℤ pos (max_clock_skew_seconds * 2))) to_replayed
    pure (record {
      key_id = c.key_id;
      timestamp = timestamp;
      nonce = c.nonce;
      body_hash = body_hash;
    })
