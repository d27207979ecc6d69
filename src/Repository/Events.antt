-- ===== src/Repository/Events.antt =====
-- repository.py: `save_trade_event` and `record_heartbeat`.
use ea_trading_system.Prelude.{
  ℤ, String, ◌&◌, Bool, true, false, ◌==◌, Option, none, some, [], ◌∷◌, lookup,
}
use ea_trading_system.Errors.{Exc, conditional_check, conditional_write_failed}
use ea_trading_system.Act.{Act, pure, raise, catch, ◌>>=◌, ◌>>◌}
use ea_trading_system.Json.{bool, str, obj}
use ea_trading_system.Python.{Python}
use ea_trading_system.Telemetry.Event.{Event}
use ea_trading_system.Heartbeat.Validation.{Heartbeat}
use ea_trading_system.Repository.Table.{
  Attribute, plain, Item, if_absent, if_absent_or_older, Table,
}
use ea_trading_system.Repository.Dynamo.{text, integer}

module _ {F : Type 0} where
  -- `existing.get("body_hash") == body_hash`
  abbrev pub same_hash : Option (Attribute F) → String → Bool
  same_hash (some (plain (str s))) h = s == h
  same_hash none h = false
  same_hash _ h = false

  -- `existing and existing.get("body_hash") == body_hash`
  abbrev pub is_repeat : Option (Item F) → String → Bool
  is_repeat none h = false
  is_repeat (some i) h = same_hash (lookup "body_hash" i) h

  unfoldable pub event_sort_key : Event F → String
  event_sort_key e = "EVENT#" & e.timestamp & "#" & e.event_id

abbrev pub repeated : {W : Type 0} → Bool → Act W Bool
repeated true = pure false
repeated false = raise conditional_write_failed

-- A refused heartbeat is stale.
abbrev pub after_heartbeat : {W : Type 0} → Exc → Act W Bool
after_heartbeat conditional_check = pure false
after_heartbeat other = raise other

module _ {F W : Type 0} (p : Python F) (table : Table F W) where
  unfoldable pub event_item : String → Event F → String → Item F
  event_item source_id e body_hash =
      ("pk", text ("SOURCE#" & source_id))
      ∷ ("sk", text (event_sort_key e))
      ∷ ("gsi1pk", text ("CANDIDATE#" & e.trade_candidate_id))
      ∷ ("gsi1sk", text (event_sort_key e))
      ∷ ("entity_type", text "TRADE_EVENT")
      ∷ ("event_id", text e.event_id)
      ∷ ("trade_candidate_id", text e.trade_candidate_id)
      ∷ ("request_id", text e.request_id)
      ∷ ("ea_id", text e.ea_id)
      ∷ ("event_time", text e.timestamp)
      ∷ ("event_type", text e.event_type)
      ∷ ("symbol", text e.symbol)
      ∷ ("payload_json", text (p.json_dumps (obj e.payload)))
      ∷ ("body_hash", text body_hash)
      ∷ []

  -- A refused write is a repetition if the same body is stored, and a conflict otherwise.
  abbrev pub after_event : String → String → String → Exc → Act W Bool
  after_event pk sk body_hash conditional_check = do
    existing ← table.get_item pk sk
    repeated (is_repeat existing body_hash)
  after_event pk sk body_hash other = raise other

  -- `true` for a new event, `false` for a repetition.
  unfoldable pub save_trade_event : String → Event F → String → Act W Bool
  save_trade_event source_id e body_hash =
      let pk = "SOURCE#" & source_id in
      let sk = event_sort_key e in
      catch (do table.put_item pk sk (event_item source_id e body_hash) if_absent; pure true)
        (after_event pk sk body_hash)

  unfoldable pub heartbeat_item : String → Heartbeat → ℤ → String → String → Item F
  heartbeat_item source_id h epoch received_at body_hash =
      ("pk", text ("HEARTBEAT#" & source_id))
      ∷ ("sk", text "LATEST")
      ∷ ("entity_type", text "HEARTBEAT")
      ∷ ("heartbeat_id", text h.heartbeat_id)
      ∷ ("ea_id", text h.ea_id)
      ∷ ("symbol", text h.symbol)
      ∷ ("last_heartbeat_at", text h.timestamp)
      ∷ ("last_heartbeat_epoch", integer epoch)
      ∷ ("received_at", text received_at)
      ∷ ("interval_seconds", integer h.interval_seconds)
      ∷ ("terminal_connected", plain (bool h.terminal_connected))
      ∷ ("trade_mutations_enabled", plain (bool h.trade_mutations_enabled))
      ∷ ("kill_switch_active", plain (bool h.kill_switch_active))
      ∷ ("body_hash", text body_hash)
      ∷ []

  -- One item for each source: an older time, or the same one, does not replace it.
  unfoldable pub record_heartbeat : String → Heartbeat → ℤ → String → String → Act W Bool
  record_heartbeat source_id h epoch received_at body_hash =
      catch
        (do
          table.put_item ("HEARTBEAT#" & source_id) "LATEST"
              (heartbeat_item source_id h epoch received_at body_hash) (if_absent_or_older epoch)
          pure true)
        after_heartbeat
