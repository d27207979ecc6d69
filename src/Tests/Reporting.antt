-- ===== src/Tests/Reporting.antt =====
-- Reports that are sent to the two other entry points.
use ea_trading_system.Prelude.{
  ℕ, pos, ◌+ℤ◌, ◌-ℤ◌, ◌≡◌, refl, true, false, none, some, List, [], ◌∷◌,
}
use ea_trading_system.Errors.{ok, timeout_error}
use ea_trading_system.Act.{pure, raise}
use ea_trading_system.Json.{
  Raw, RawPairs, null, str, pair, end, field, reject_duplicates, read_value, read_items, read_pairs,
}
use ea_trading_system.Python.{Python, full_match, has_control, ends_with_z}
use ea_trading_system.Validation.Fields.{item, loads, read_body}
use ea_trading_system.Auth.{verify_request}
use ea_trading_system.Auth.Format.{normalized, read_credentials, check_format}
use ea_trading_system.Telemetry.Fields.{safe_string, uuid4, utc, finite_number}
use ea_trading_system.Telemetry.Event.{
  Event, payload_names, check_field, check_safe_text, check_payload, text_matching, optional_uuid,
  event_of, parse_and_validate_event,
}
use ea_trading_system.Heartbeat.Validation.{
  Heartbeat, identity, interval, boolean, heartbeat_of, parse_and_validate_heartbeat,
}
use ea_trading_system.Heartbeat.Validation
use ea_trading_system.Repository.Dynamo.{dynamo_decisions}
use ea_trading_system.Repository.Events.{
  event_sort_key, event_item, save_trade_event, heartbeat_item, record_heartbeat,
}
use ea_trading_system.Handler.Gateway.{Event as HttpEvent, read_raw_body}
use ea_trading_system.Handler.Trade.{Process}
use ea_trading_system.Handler.Reports.{
  signed_for, source_of, store_event, store_heartbeat, received_event, received_heartbeat,
}
use ea_trading_system.Handler.KeptReports.{
  IsKept, IsLatest, received_event-IsKept, received_heartbeat-IsLatest,
}
use ea_trading_system.Tests.World.{python, number, request_id}
use ea_trading_system.Tests.Signing.{headers}
use ea_trading_system.Tests.Storing.{Store, table, laws}

abbrev raw_event : Raw ℕ
raw_event = Raw.obj (
    pair "schema_version" (Raw.str "1.0") (
      pair "event_id" (Raw.str request_id) (
        pair "trade_candidate_id" (Raw.str "cand-1") (
          pair "request_id" (Raw.str "") (
            pair "ea_id" (Raw.str "ea-1") (
              pair "timestamp" (Raw.str "1970-01-01T00:16:40Z") (
                pair "event_type" (Raw.str "SYSTEM_ERROR") (
                  pair "symbol" (Raw.str "USDJPY") (
                    pair "payload"
                      (Raw.obj (
                        pair "component" (Raw.str "broker") (
                          pair "reason_code" (Raw.str "NO_CONNECTION")
                            (pair "reason" (Raw.str "no connection") RawPairs.end))))
                      RawPairs.end)))))))))

abbrev p : Python ℕ
p = python raw_event null

abbrev process_of : Python ℕ → Process ℕ Store
process_of q = record {
  environ = λ name. some "dev";
  max_skew = ok 60;
  ttl = ok 30;
  clock = pure (pos 1_010);
  now = pure (pos 1_010_000_000);
  perf_counter = λ w. (0, w);
  remaining_ms = none;
  dependencies = pure tt;
  repository = dynamo_decisions q table;
  nonces = record { claim_nonce = λ k n t. pure tt };
  secrets = record { get_secret = λ k. pure "a shared secret" };
  ml_dependency = raise timeout_error;
  llm_dependency = raise timeout_error;
}

abbrev post : HttpEvent
post = record {
  method = some "POST";
  body = some "{}";
  is_base64_encoded = false;
  headers = headers;
}

abbrev event : Event ℕ
event = record {
  event_id = request_id;
  trade_candidate_id = "cand-1";
  request_id = "";
  ea_id = "ea-1";
  timestamp = "1970-01-01T00:16:40Z";
  event_type = "SYSTEM_ERROR";
  symbol = "USDJPY";
  payload =
      field "component" (str "broker")
        (field "reason_code" (str "NO_CONNECTION") (field "reason" (str "no connection") end));
}

abbrev event_store : Store
unfolding event_sort_key
event_store =
    ("SOURCE#body-hash", event_sort_key event, event_item p table "body-hash" event "body-hash")
    ∷ []

received : received_event p (process_of p) table post [] ≡ (ok (event, true), event_store)
unfolding received_event store_event source_of signed_for save_trade_event event_sort_key
    read_raw_body verify_request read_credentials check_format normalized ◌-ℤ◌ ◌+ℤ◌
    parse_and_validate_event event_of optional_uuid text_matching check_payload check_field
    check_safe_text payload_names safe_string uuid4 utc finite_number item loads read_body
    read_value read_items read_pairs reject_duplicates full_match has_control ends_with_z
received = refl

received_event-IsKept_example :
    (raw : List ℕ) × (read_raw_body p post "event body encoding is invalid" ≡ ok raw)
    × (parse_and_validate_event ⦃p = p⦄ raw ≡ ok event)
    × IsKept p (process_of p) table laws post raw event true event_store
received_event-IsKept_example =
    received_event-IsKept p (process_of p) table laws post event true [] event_store received

abbrev raw_heartbeat : Raw ℕ
raw_heartbeat = Raw.obj (
    pair "schema_version" (Raw.str "1.0") (
      pair "heartbeat_id" (Raw.str request_id) (
        pair "ea_id" (Raw.str "ea-1") (
          pair "timestamp" (Raw.str "1970-01-01T00:16:40Z") (
            pair "symbol" (Raw.str "USDJPY") (
              pair "interval_seconds" (number 60) (
                pair "terminal_connected" (Raw.bool true) (
                  pair "trade_mutations_enabled" (Raw.bool true)
                    (pair "kill_switch_active" (Raw.bool false) RawPairs.end)))))))))

abbrev q : Python ℕ
q = python raw_heartbeat null

abbrev heartbeat : Heartbeat
heartbeat = record {
  heartbeat_id = request_id;
  ea_id = "ea-1";
  timestamp = "1970-01-01T00:16:40Z";
  symbol = "USDJPY";
  interval_seconds = pos 60;
  terminal_connected = true;
  trade_mutations_enabled = true;
  kill_switch_active = false;
}

abbrev beat_store : Store
beat_store =
    (
      "HEARTBEAT#body-hash",
      "LATEST",
      heartbeat_item q table "body-hash" heartbeat (pos 1_000) "1970-01-01T00:16:40Z" "body-hash",
    )
    ∷ []

beating : received_heartbeat q (process_of q) table post [] ≡ (ok (heartbeat, true), beat_store)
unfolding received_heartbeat store_heartbeat source_of signed_for record_heartbeat read_raw_body
    verify_request read_credentials check_format normalized ◌-ℤ◌ ◌+ℤ◌ parse_and_validate_heartbeat
    heartbeat_of boolean interval identity Validation.text_matching safe_string uuid4 utc item loads
    read_body read_value read_items read_pairs reject_duplicates full_match has_control ends_with_z
beating = refl

received_heartbeat-IsLatest_example :
    (raw : List ℕ) × (read_raw_body q post "heartbeat body encoding is invalid" ≡ ok raw)
    × (parse_and_validate_heartbeat q raw ≡ ok heartbeat)
    × IsLatest q (process_of q) table laws post raw heartbeat true beat_store
received_heartbeat-IsLatest_example =
    received_heartbeat-IsLatest q (process_of q) table laws post heartbeat true [] beat_store
      beating
