-- ===== src/Handler/Reports.antt =====
-- telemetry_handler.py and heartbeat_handler.py: `lambda_handler` of each. Logs and metrics are left
-- out.
use ea_trading_system.Prelude.{
  ℕ, ℤ, zero, suc, eq_ℤ, String, ◌&◌, Bool, true, false, Option, none, some, List, [], ◌∷◌,
}
use ea_trading_system.Errors.{Exc, Result, ok, err, api, key_error, conditional_write_failed}
use ea_trading_system.Act.{Act, pure, raise, lift, catch, require, ◌>>=◌, ◌>>◌}
use ea_trading_system.Json.{str, dict}
use ea_trading_system.Python.{Python}
use ea_trading_system.Auth.{AuthContext, verify_request}
use ea_trading_system.Telemetry.Event.{Event, parse_and_validate_event}
use ea_trading_system.Heartbeat.Validation.{Heartbeat, parse_and_validate_heartbeat}
use ea_trading_system.Repository.Table.{Table}
use ea_trading_system.Repository.Events.{save_trade_event, record_heartbeat}
use ea_trading_system.Handler.Gateway.{
  Event as HttpEvent, Response, check_method, check_key, read_raw_body, body_seconds, response,
  failure,
}
use ea_trading_system.Handler.Trade.{Process, mismatch}

-- `text[:n]`
abbrev first : ℕ → String → String
first zero s = ""
first (suc n) String.[] = ""
first (suc n) (String.◌∷◌ c s) = String.◌∷◌ c (first n s)

-- `except ConditionalWriteFailed`
abbrev pub to_conflict : {W A : Type 0} → Exc → Act W A
to_conflict conditional_write_failed =
    raise (api 409 "EVENT_ID_CONFLICT" "event identity was reused with different content")
to_conflict other = raise other

abbrev event_status : Bool → String
event_status true = "ACCEPTED"
event_status false = "DUPLICATE"

abbrev heartbeat_status : Bool → String
heartbeat_status true = "ACCEPTED"
heartbeat_status false = "STALE"

module _ {F W : Type 0} (p : Python F) (process : Process F W) (table : Table F W) where
  open p use {sha256, encode, iso}

  -- The request is signed for the path, and its body states the signed time.
  unfoldable pub signed_for : String → HttpEvent → List ℕ → String → Act W (AuthContext × ℤ)
  signed_for path event raw_body timestamp = do
    process.dependencies
    skew ← lift process.max_skew
    auth ←
        verify_request p process.clock process.secrets process.nonces event.headers raw_body none
          skew path
    seconds ← lift (body_seconds p timestamp)
    require (eq_ℤ seconds auth.timestamp) mismatch
    pure (auth, seconds)

  abbrev hashed : Option String → String → String → Result String
  hashed none key_id ea_id = err key_error
  hashed (some environment) key_id ea_id =
      ok (first 32 (sha256 (encode (environment & "|" & key_id & "|" & ea_id))))

  -- The source of a report: a hash of the environment, the key and the EA.
  unfoldable pub source_of : AuthContext → String → Result String
  source_of auth ea_id = hashed (process.environ "ENVIRONMENT") auth.key_id ea_id

  unfoldable pub store_event : HttpEvent → List ℕ → Event F → Act W Bool
  store_event event raw_body e = do
    (auth, seconds) ← signed_for "/v1/trade-events" event raw_body e.timestamp
    source_id ← lift (source_of auth e.ea_id)
    catch (save_trade_event p table source_id e auth.body_hash) to_conflict

  -- The `try` block of telemetry_handler.py: the event, and whether it is new.
  unfoldable pub received_event : HttpEvent → Act W (Event F × Bool)
  received_event event = do
    lift (check_method event)
    raw_body ← lift (read_raw_body p event "event body encoding is invalid")
    e ← lift (parse_and_validate_event ⦃p = p⦄ raw_body)
    lift (check_key p event e.event_id "Idempotency-Key must equal event_id")
    created ← store_event event raw_body e
    pure (e, created)

  abbrev event_answer : Result (Event F × Bool) → Response
  event_answer (err x) = failure p "event failed safely" x
  event_answer (ok (e, created)) = response p 200 (
      dict (
        ("schema_version", str "1.0")
        ∷ ("event_id", str e.event_id)
        ∷ ("status", str (event_status created))
        ∷ []))

  unfoldable pub telemetry_handler : HttpEvent → W → Response × W
  telemetry_handler event w = let (result, w') = received_event event w in (event_answer result, w')

  unfoldable pub store_heartbeat : HttpEvent → List ℕ → Heartbeat → Act W Bool
  store_heartbeat event raw_body h = do
    (auth, seconds) ← signed_for "/v1/heartbeats" event raw_body h.timestamp
    source_id ← lift (source_of auth h.ea_id)
    received ← process.now
    record_heartbeat p table source_id h seconds (iso received) auth.body_hash

  -- The `try` block of heartbeat_handler.py.
  unfoldable pub received_heartbeat : HttpEvent → Act W (Heartbeat × Bool)
  received_heartbeat event = do
    lift (check_method event)
    raw_body ← lift (read_raw_body p event "heartbeat body encoding is invalid")
    h ← lift (parse_and_validate_heartbeat p raw_body)
    lift (check_key p event h.heartbeat_id "Idempotency-Key must equal heartbeat_id")
    updated ← store_heartbeat event raw_body h
    pure (h, updated)

  abbrev heartbeat_answer : Result (Heartbeat × Bool) → Response
  heartbeat_answer (err x) = failure p "heartbeat failed safely" x
  heartbeat_answer (ok (h, updated)) = response p 200 (
      dict (
        ("schema_version", str "1.0")
        ∷ ("heartbeat_id", str h.heartbeat_id)
        ∷ ("status", str (heartbeat_status updated))
        ∷ []))

  unfoldable pub heartbeat_handler : HttpEvent → W → Response × W
  heartbeat_handler event w =
      let (result, w') = received_heartbeat event w in (heartbeat_answer result, w')
