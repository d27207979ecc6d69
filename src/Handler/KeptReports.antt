-- ===== src/Handler/KeptReports.antt =====
-- What an accepted report leaves in the table.
use mathlib.Core.Path.{subst, subst₂}
use ea_trading_system.Prelude.{ℕ, String, ◌≡◌, ap, Bool, Option, List, arith}
use ea_trading_system.Errors.{Exc, ok, conditional_write_failed}
use ea_trading_system.Act.{after, after_lift, after_catch}
use ea_trading_system.Python.{Python}
use ea_trading_system.Auth.{AuthContext}
use ea_trading_system.Telemetry.Event.{Event, parse_and_validate_event}
use ea_trading_system.Heartbeat.Validation.{Heartbeat, parse_and_validate_heartbeat}
use ea_trading_system.Repository.Table.{Item, Table, TableLaws}
use ea_trading_system.Repository.Events.{
  event_sort_key, event_item, save_trade_event, heartbeat_item,
}
use ea_trading_system.Repository.TradeEvents.{Stored, save_trade_event-Stored}
use ea_trading_system.Repository.Heartbeats.{Recorded, record_heartbeat-Recorded}
use ea_trading_system.Handler.Gateway.{Event as HttpEvent, check_method, check_key, read_raw_body}
use ea_trading_system.Handler.Trade.{Process}
use ea_trading_system.Handler.Signed.{IsSigned, signed_for-IsSigned}
use ea_trading_system.Handler.Reports.{
  signed_for, source_of, store_event, store_heartbeat, received_event, received_heartbeat,
  to_conflict,
}

to_conflict-raises : {W A : Type 0} (x : Exc) (w w' : W) (a : A) → to_conflict x w ≡ (ok a, w') → ⊥
to_conflict-raises conditional_write_failed w w' a h = ground arith
to_conflict-raises x w w' a h = ground arith

module _ {F W : Type 0} (p : Python F) (process : Process F W) (table : Table F W)
    {view : W → String → String → Option (Item F)} (laws : TableLaws table view) where
  -- The last step of an answered event: it was stored under the source of its key and its EA, with the
  -- hash of its body, or it is a repetition of what is stored.
  pub record IsKept (event : HttpEvent) (raw : List ℕ) (e : Event F) (created : Bool) (w' : W)
      : Type 0 where
    pub auth : AuthContext
    pub signed : IsSigned p process table "/v1/trade-events" event raw e.timestamp auth
    pub source : String
    pub from : source_of p process table auth e.ea_id ≡ ok source
    pub w₁ : W
    pub stored :
        Stored p table laws source
          (event_sort_key e)
          (p.sha256 raw)
          (event_item p table source e (p.sha256 raw))
          created
          w₁
          w'

  store_event-IsKept :
      (event : HttpEvent) (raw : List ℕ) (e : Event F) (w w' : W) (created : Bool)
      → store_event p process table event raw e w ≡ (ok created, w')
      → IsKept event raw e created w'
  unfolding store_event
  store_event-IsKept event raw e w w' created h =
      after (signed_for p process table "/v1/trade-events" event raw e.timestamp) _ w created w' h
        λ a w₁ e₁ h₁.
          after_lift (source_of p process table a.0 e.ea_id) _ w₁ created w' h₁ λ source e₂ h₂.
            after_catch (save_trade_event p table source e a.0.body_hash) to_conflict w₁ created w'
              h₂
              (λ done.
                let (signed, time) =
                  signed_for-IsSigned p process table "/v1/trade-events" event raw e.timestamp w w₁
                    a.0 a.1 e₁ in
                let over : a.0.body_hash ≡ p.sha256 raw = signed.verified.body in
                record {
                  auth = a.0;
                  signed = signed;
                  source = source;
                  from = e₂;
                  w₁ = w₁;
                  stored =
                      subst
                        (λ x.
                          Stored p table laws source (event_sort_key e) x
                            (event_item p table source e x) created w₁ w')
                        over
                        (save_trade_event-Stored p table laws source e a.0.body_hash created w₁ w'
                          done);
                })
              (λ x w₂ raised h₃. absurd (to_conflict-raises x w₂ w' created h₃))

  -- An event that is answered came in a valid body, whose signature and signed time were verified, and
  -- is in the table: as a new item under the source of its key and EA, its time and its id, with the hash
  -- of that body, or, if it is reported as a repetition, stored before with the same hash.
  pub received_event-IsKept :
      (event : HttpEvent) (e : Event F) (created : Bool) (w w' : W)
      → received_event p process table event w ≡ (ok (e, created), w')
      → (raw : List ℕ) × (read_raw_body p event "event body encoding is invalid" ≡ ok raw)
        × (parse_and_validate_event ⦃p = p⦄ raw ≡ ok e)
        × IsKept event raw e created w'
  unfolding received_event
  received_event-IsKept event e created w w' h =
      after_lift (check_method event) _ w (e, created) w' h
        λ u post h₁.
          after_lift (read_raw_body p event "event body encoding is invalid") _ w (e, created) w' h₁
            λ raw body h₂.
              after_lift (parse_and_validate_event ⦃p = p⦄ raw) _ w (e, created) w' h₂
                λ e' valid h₃.
                  after_lift (check_key p event e'.event_id "Idempotency-Key must equal event_id") _
                    w (e, created) w' h₃
                    λ u keyed h₄.
                      after (store_event p process table event raw e') _ w (e, created) w' h₄
                        λ c' w₁ run h₅.
                          let same : Path (Event F × Bool) (e', c') (e, created) = ground arith in
                          subst₂
                            (λ r v.
                              (raw : List ℕ) × (read_raw_body p event
                                  "event body encoding is invalid"
                                ≡ ok raw)
                              × (parse_and_validate_event ⦃p = p⦄ raw ≡ ok r.0)
                              × IsKept event raw r.0 r.1 v)
                            same (ap (λ x. x.1) h₅)
                            (raw, body, valid, store_event-IsKept event raw e' w w₁ c' run)

  -- The last step of an answered heartbeat: it was recorded, or found stale, at its signed time.
  pub record IsLatest (event : HttpEvent) (raw : List ℕ) (h : Heartbeat) (updated : Bool) (w' : W)
      : Type 0 where
    pub auth : AuthContext
    pub signed : IsSigned p process table "/v1/heartbeats" event raw h.timestamp auth
    pub source : String
    pub from : source_of p process table auth h.ea_id ≡ ok source
    pub received : String
    pub w₁ : W
    pub recorded :
        Recorded p table laws source auth.timestamp
          (heartbeat_item p table source h auth.timestamp received (p.sha256 raw))
          updated
          w₁
          w'

  store_heartbeat-IsLatest :
      (event : HttpEvent) (raw : List ℕ) (h : Heartbeat) (w w' : W) (updated : Bool)
      → store_heartbeat p process table event raw h w ≡ (ok updated, w')
      → IsLatest event raw h updated w'
  unfolding store_heartbeat
  store_heartbeat-IsLatest event raw h w w' updated run =
      after (signed_for p process table "/v1/heartbeats" event raw h.timestamp) _ w updated w' run
        λ a w₁ e₁ h₁.
          after_lift (source_of p process table a.0 h.ea_id) _ w₁ updated w' h₁ λ source e₂ h₂.
            after process.now _ w₁ updated w' h₂ λ received w₂ e₃ h₃.
              let (signed, time) =
                signed_for-IsSigned p process table "/v1/heartbeats" event raw h.timestamp w w₁ a.0
                  a.1 e₁ in
              let over : a.0.body_hash ≡ p.sha256 raw = signed.verified.body in
              record {
                auth = a.0;
                signed = signed;
                source = source;
                from = e₂;
                received = p.iso received;
                w₁ = w₂;
                recorded =
                    subst₂
                      (λ t x.
                        Recorded p table laws source t
                          (heartbeat_item p table source h t (p.iso received) x) updated w₂ w')
                      time over
                      (record_heartbeat-Recorded p table laws source h a.1 (p.iso received)
                        a.0.body_hash updated w₂ w' h₃);
              }

  -- A heartbeat that is answered came in a valid body, whose signature and signed time were verified; at
  -- that time it has replaced an older item of the source of its key and EA, or it is reported as stale,
  -- and then the item of that source is not older and stays.
  pub received_heartbeat-IsLatest :
      (event : HttpEvent) (h : Heartbeat) (updated : Bool) (w w' : W)
      → received_heartbeat p process table event w ≡ (ok (h, updated), w')
      → (raw : List ℕ) × (read_raw_body p event "heartbeat body encoding is invalid" ≡ ok raw)
        × (parse_and_validate_heartbeat p raw ≡ ok h)
        × IsLatest event raw h updated w'
  unfolding received_heartbeat
  received_heartbeat-IsLatest event h updated w w' run =
      after_lift (check_method event) _ w (h, updated) w' run
        λ u post h₁.
          after_lift (read_raw_body p event "heartbeat body encoding is invalid") _ w (h, updated)
            w' h₁
            λ raw body h₂.
              after_lift (parse_and_validate_heartbeat p raw) _ w (h, updated) w' h₂
                λ h' valid h₃.
                  after_lift
                    (check_key p event h'.heartbeat_id "Idempotency-Key must equal heartbeat_id") _
                    w (h, updated) w' h₃
                    λ u keyed h₄.
                      after (store_heartbeat p process table event raw h') _ w (h, updated) w' h₄
                        λ c' w₁ kept h₅.
                          let same : Path (Heartbeat × Bool) (h', c') (h, updated) = ground arith in
                          subst₂
                            (λ r v.
                              (raw : List ℕ) × (read_raw_body p event
                                  "heartbeat body encoding is invalid"
                                ≡ ok raw)
                              × (parse_and_validate_heartbeat p raw ≡ ok r.0)
                              × IsLatest event raw r.0 r.1 v)
                            same (ap (λ x. x.1) h₅)
                            (raw, body, valid, store_heartbeat-IsLatest event raw h' w w₁ c' kept)
