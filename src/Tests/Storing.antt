-- ===== src/Tests/Storing.antt =====
-- The table, as a list of items.
use ea_trading_system.Prelude.{
  ℕ, ℤ, pos, String, ◌&&◌, ◌==◌, ◌≡◌, refl, sym, ap, ◌∙◌, Bool, true, false, Option, none, some,
  List, [], ◌∷◌, eq_iff, arith, if◌then◌else◌,
}
use ea_trading_system.Errors.{ok, err, conditional_check}
use ea_trading_system.Act.{Act, pure}
use ea_trading_system.Json.{Fields, str, obj, end, field}
use ea_trading_system.Python.{Python}
use ea_trading_system.Auth.{SecretProvider}
use ea_trading_system.Auth.Replay.{ReplayLaws}
use ea_trading_system.Service.Providers.{Saved}
use ea_trading_system.Telemetry.Event.{Event}
use ea_trading_system.Heartbeat.Validation.{Heartbeat}
use ea_trading_system.Repository.Table.{Item, holds, Table, TableLaws}
use ea_trading_system.Repository.Dynamo.{get_decision, save_decision, decision_item, dynamo_nonces}
use ea_trading_system.Repository.Decisions.{saved_then_read}
use ea_trading_system.Repository.Nonces.{HasNonce, dynamo_nonces-ReplayLaws}
use ea_trading_system.Repository.Events.{
  event_sort_key, event_item, save_trade_event, heartbeat_item, record_heartbeat,
}
use ea_trading_system.Repository.TradeEvents.{Stored, save_trade_event-Stored}
use ea_trading_system.Repository.Heartbeats.{Recorded, record_heartbeat-Recorded}
use ea_trading_system.Tests.World.{python, raw_request}

abbrev pub Store : Type 0
Store = List (String × String × Item ℕ)

abbrev pub view : Store → String → String → Option (Item ℕ)
view [] a b = none
view ((k, j, i) ∷ rest) a b = if k == a && (j == b) then some i else view rest a b

abbrev write_if : Bool → String → String → Item ℕ → Act Store (Unit {0})
write_if true a b i w = (ok tt, (a, b, i) ∷ w)
write_if false a b i w = (err conditional_check, w)

abbrev pub table : Table ℕ Store
table = record {
  put_item = λ a b i c w. write_if (holds c (view w a b)) a b i w;
  get_item = λ a b w. (ok (view w a b), w);
}

writes :
    (t : Bool) (a b : String) (i : Item ℕ) (w w' : Store)
    → write_if t a b i w ≡ (ok tt, w')
    → (t ≡ true) × (view w' a b ≡ some i)
writes true a b i w w' h =
    let same : ((a, b, i) ∷ w) ≡ w' = ap (λ x. x.1) h in
    (refl, ap (λ v. view v a b) (sym same) ∙ ground (arith, eq_iff a a, eq_iff b b))
writes false a b i w w' h = absurd (ground arith)

refuses :
    (t : Bool) (a b : String) (i : Item ℕ) (w w' : Store)
    → write_if t a b i w ≡ (err conditional_check, w')
    → (t ≡ false) × ((c d : String) → view w' c d ≡ view w c d)
refuses true a b i w w' h = absurd (ground arith)
refuses false a b i w w' h = (refl, λ c d. ap (λ x. view x.1 c d) (sym h))

reads :
    (a b : String) (o : Option (Item ℕ)) (w w' : Store)
    → table.get_item a b w ≡ (ok o, w')
    → (o ≡ view w a b) × ((c d : String) → view w' c d ≡ view w c d)
reads a b o w w' h =
    let got : view w a b ≡ o = ground arith in (sym got, λ c d. ap (λ x. view x.1 c d) (sym h))

pub laws : TableLaws table view
laws = record {
  put_writes = λ a b i c w w' h. writes (holds c (view w a b)) a b i w w' h;
  put_refuses = λ a b i c w w' h. refuses (holds c (view w a b)) a b i w w' h;
  get_reads = λ a b o w w' h. reads a b o w w' h;
}

abbrev answer : Fields ℕ
answer =
    field "decision" (str "VETO")
      (field "reason_code" (str "ML_PASSED") (field "created_at" (str "1970-01-01T00:16:40Z") end))

abbrev p : Python ℕ
p = python raw_request (obj answer)

abbrev decision_store : Store
decision_store =
    (
      "REQUEST#id-1",
      "DECISION",
      decision_item p table "id-1" "body-hash" answer (pos 86_400) end (str "VETO")
          (str "ML_PASSED") [],
    )
    ∷ []

saved :
    save_decision p table "id-1" "body-hash" answer (pos 86_400) end [] ≡ (ok tt, decision_store)
unfolding save_decision
saved = refl

abbrev record_of : Saved ℕ
record_of = record { body_hash = "body-hash"; response = answer }

found : get_decision p table "id-1" decision_store ≡ (ok (some record_of), decision_store)
unfolding get_decision
found = refl

saved_then_read_example : Path (Option (Saved ℕ)) (some record_of) (some record_of)
saved_then_read_example =
    saved_then_read p table laws "id-1" "body-hash" answer end (pos 86_400) [] decision_store
      decision_store decision_store (some record_of) refl saved refl found

abbrev clock : Act Store ℤ
clock = pure (pos 1_000)

abbrev secrets : SecretProvider Store
secrets = record { get_secret = λ k. pure "a shared secret" }

dynamo_nonces-ReplayLaws_example :
    ReplayLaws clock secrets (dynamo_nonces p table) (HasNonce p table laws)
dynamo_nonces-ReplayLaws_example =
    dynamo_nonces-ReplayLaws p table laws clock secrets (λ k n w h. h) (λ k n j w h. h)

abbrev event : Event ℕ
event = record {
  event_id = "event-1";
  trade_candidate_id = "cand-1";
  request_id = "";
  ea_id = "ea-1";
  timestamp = "1970-01-01T00:16:40Z";
  event_type = "RISK_DECISION";
  symbol = "USDJPY";
  payload = end;
}

abbrev event_store : Store
unfolding event_sort_key
event_store = ("SOURCE#s", event_sort_key event, event_item p table "s" event "hash-1") ∷ []

created : save_trade_event p table "s" event "hash-1" [] ≡ (ok true, event_store)
unfolding save_trade_event event_sort_key
created = refl

repeated : save_trade_event p table "s" event "hash-1" event_store ≡ (ok false, event_store)
unfolding save_trade_event event_sort_key event_item
repeated = refl

save_trade_event-Stored_example :
    Stored p table laws "s"
      (event_sort_key event)
      "hash-1"
      (event_item p table "s" event "hash-1")
      true
      []
      event_store
save_trade_event-Stored_example =
    save_trade_event-Stored p table laws "s" event "hash-1" true [] event_store created

abbrev heartbeat : Heartbeat
heartbeat = record {
  heartbeat_id = "beat-1";
  ea_id = "ea-1";
  timestamp = "1970-01-01T00:16:40Z";
  symbol = "USDJPY";
  interval_seconds = pos 60;
  terminal_connected = true;
  trade_mutations_enabled = true;
  kill_switch_active = false;
}

abbrev beat_item : Item ℕ
beat_item = heartbeat_item p table "s" heartbeat (pos 1_000) "1970-01-01T00:16:41Z" "hash-1"

abbrev beat_store : Store
beat_store = ("HEARTBEAT#s", "LATEST", beat_item) ∷ []

-- An equal time is stale.
stale :
    record_heartbeat p table "s" heartbeat (pos 1_000) "1970-01-01T00:16:42Z" "hash-2" beat_store
    ≡ (ok false, beat_store)
unfolding record_heartbeat heartbeat_item
stale = refl

record_heartbeat-Recorded_example :
    Recorded p table laws "s"
      (pos 1_000)
      (heartbeat_item p table "s" heartbeat (pos 1_000) "1970-01-01T00:16:42Z" "hash-2")
      false
      beat_store
      beat_store
record_heartbeat-Recorded_example =
    record_heartbeat-Recorded p table laws "s" heartbeat (pos 1_000) "1970-01-01T00:16:42Z" "hash-2"
      false beat_store beat_store stale
