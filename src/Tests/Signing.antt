-- ===== src/Tests/Signing.antt =====
-- Requests that are signed.
use ea_trading_system.Prelude.{
  ℤ, pos, ◌+ℤ◌, ◌-ℤ◌, ◌≤ℤ◌, String, ◌≡◌, ◌≢◌, refl, Bool, true, false, none, [], ◌∷◌, arith,
}
use ea_trading_system.Errors.{ok, err, conditional_write_failed}
use ea_trading_system.Act.{Act, pure}
use ea_trading_system.Python.{full_match}
use ea_trading_system.Auth.{SecretProvider, ReplayStore, AuthContext, verify_request}
use ea_trading_system.Auth.Format.{Headers, normalized, read_credentials, check_format}
use ea_trading_system.Auth.Window.{IsVerified, verify_request-IsVerified, nonce_outlives_request}
use ea_trading_system.Auth.Replay.{ReplayLaws, accepted_once}
use ea_trading_system.Tests.World.{p, request_id, signature}

abbrev pub headers : Headers
headers =
    ("x-ea-key-id", "key-1")
    ∷ ("x-ea-timestamp", "1000")
    ∷ ("x-ea-nonce", "nonce-1")
    ∷ ("x-ea-signature", signature)
    ∷ ("idempotency-key", request_id)
    ∷ []

-- The world holds whether the one nonce was claimed.
abbrev clock : Act Bool ℤ
clock = pure (pos 1_010)

abbrev secrets : SecretProvider Bool
secrets = record { get_secret = λ k. pure "a shared secret" }

abbrev claim : Act Bool (Unit {0})
claim true = (err conditional_write_failed, true)
claim false = (ok tt, true)

abbrev store : ReplayStore Bool
store = record { claim_nonce = λ k n t. claim }

abbrev pub context : AuthContext
context = record {
  key_id = "key-1";
  timestamp = pos 1_000;
  nonce = "nonce-1";
  body_hash = "body-hash";
}

verified :
    verify_request p clock secrets store headers [] none 60 "/v1/heartbeats" false
    ≡ (ok context, true)
unfolding ◌-ℤ◌ ◌+ℤ◌ verify_request read_credentials check_format normalized full_match
verified = refl

verify_request-IsVerified_example :
    IsVerified p clock secrets store headers [] 60 "/v1/heartbeats" false context true
verify_request-IsVerified_example =
    verify_request-IsVerified p clock secrets store headers [] 60 "/v1/heartbeats" false context
      true verified

nonce_outlives_request_example :
    (expires : ℤ) × (before : Bool) × (store.claim_nonce context.key_id context.nonce expires before
      ≡ (ok tt, true))
    × (pos 1_010 ≤ℤ expires)
nonce_outlives_request_example =
    nonce_outlives_request p clock secrets store headers headers [] [] 60 "/v1/heartbeats"
      "/v1/heartbeats" false true false true false context context (pos 1_010) verified verified
      refl refl

abbrev Claimed : String → String → Bool → Type 0
Claimed k n w = w ≡ true

claim_sets : (w w' : Bool) → claim w ≡ (ok tt, w') → w' ≡ true
claim_sets true w' h = ground arith
claim_sets false w' h = ground arith

claimed_refuses : (w w' : Bool) → w ≡ true → claim w ≢ (ok tt, w')
claimed_refuses true w' h q = ground arith
claimed_refuses false w' h q = ground arith

laws : ReplayLaws clock secrets store Claimed
laws = record {
  claims = λ k n t w w' h. claim_sets w w' h;
  refuses = λ k n t w w' c. claimed_refuses w w' c;
  clock_keeps = λ k n w c. c;
  secrets_keep = λ k n j w c. c;
}

accepted_once_example :
    verify_request p clock secrets store headers (1 ∷ []) none 90 "/v1/trade-events" true
    ≢ (ok context, true)
accepted_once_example =
    accepted_once p clock secrets store laws headers headers [] (1 ∷ []) 60 90 "/v1/heartbeats"
      "/v1/trade-events" false true true true context context verified (λ c. c) refl refl
