-- ===== src/Repository/Heartbeats.antt =====
-- The latest heartbeat of a source only ever moves forward in time.
use mathlib.Core.Path.{subst₂}
use ea_trading_system.Prelude.{
  ℤ, String, ◌&◌, ◌≡◌, refl, sym, ap, ◌∙◌, Bool, true, false, Option, none, some, arith,
}
use ea_trading_system.Errors.{Exc, ok, err, conditional_check}
use ea_trading_system.Act.{Act, pure, after, after_catch, raised_by, ◌>>◌}
use ea_trading_system.Python.{Python}
use ea_trading_system.Heartbeat.Validation.{Heartbeat}
use ea_trading_system.Repository.Table.{
  Item, Table, Condition, TableLaws, if_absent_or_older, holds, epoch_of, older,
}
use ea_trading_system.Repository.Events.{heartbeat_item, record_heartbeat, after_heartbeat}

module _ {F : Type 0} where
  -- The stored item has an epoch before `e`, or there is none.
  abbrev pub OlderThan : Option (Item F) → ℤ → Type 0
  OlderThan none e = Unit
  OlderThan (some i) e = older (epoch_of i) e ≡ true

  -- An item is stored and its epoch is not before `e`.
  abbrev pub NotOlderThan : Option (Item F) → ℤ → Type 0
  NotOlderThan none e = ⊥
  NotOlderThan (some i) e = older (epoch_of i) e ≡ false

  accepted_over :
      (o : Option (Item F)) (e : ℤ) → holds (if_absent_or_older e) o ≡ true → OlderThan o e
  accepted_over none e h = tt
  accepted_over (some i) e h = h

  refused_over :
      (o : Option (Item F)) (e : ℤ) → holds (if_absent_or_older e) o ≡ false → NotOlderThan o e
  refused_over none e h = absurd (ground arith)
  refused_over (some i) e h = h

module _ {F W : Type 0} (p : Python F) (table : Table F W)
    {view : W → String → String → Option (Item F)} (laws : TableLaws table view) where
  abbrev pub latest : W → String → Option (Item F)
  latest w source_id = view w ("HEARTBEAT#" & source_id) "LATEST"

  -- What a recorded or a stale heartbeat means for the item of its source.
  abbrev pub Recorded : String → ℤ → Item F → Bool → W → W → Type 0
  Recorded source e item true w w' = OlderThan (latest w source) e × (latest w' source ≡ some item)
  Recorded source e item false w w' =
      NotOlderThan (latest w source) e × (latest w' source ≡ latest w source)

  after_heartbeat-stale :
      (source : String) (e : ℤ) (item : Item F) (x : Exc) (w w₁ w' : W) (b : Bool)
      → (x ≡ conditional_check → Recorded source e item false w w₁)
      → after_heartbeat x w₁ ≡ (ok b, w')
      → Recorded source e item b w w'
  after_heartbeat-stale source e item conditional_check w w₁ w' true stale h = absurd (ground arith)
  after_heartbeat-stale source e item conditional_check w w₁ w' false stale h =
      let kept = stale refl in
      let same : w₁ ≡ w' = ap (λ r. r.1) h in
      (kept.0, ap (λ v. latest v source) (sym same) ∙ kept.1)
  after_heartbeat-stale source e item x w w₁ w' b stale h = absurd (ground arith)

  -- A heartbeat is recorded, as a whole and in place of the item before, exactly when that item is
  -- older or missing; otherwise it is stale, the stored item is not older, and nothing changes.
  pub record_heartbeat-Recorded :
      (source : String) (h : Heartbeat) (e : ℤ) (received body_hash : String) (b : Bool) (w w' : W)
      → record_heartbeat p table source h e received body_hash w ≡ (ok b, w')
      → Recorded source e (heartbeat_item p table source h e received body_hash) b w w'
  unfolding record_heartbeat
  record_heartbeat-Recorded source h e received body_hash b w w' run =
      after_catch (put >> pure true) after_heartbeat w b w' run
        (λ done.
          after put (λ u. pure true) w b w' done
            λ u w₁ written h₁.
              let law = laws.put_writes pk "LATEST" item condition w w₁ written in
              let same : w₁ ≡ w' = ap (λ r. r.1) h₁ in
              let yes : true ≡ b = ground arith in
              subst₂ (λ c v. Recorded source e item c w v) yes same
                (accepted_over (latest w source) e law.0, law.1))
        (λ x w₁ raised stale.
          after_heartbeat-stale source e item x w w₁ w' b
            (λ q.
              let refusal : put w ≡ (err conditional_check, w₁) =
                raised_by put true w x w₁ raised ∙ ap (λ y. (err y, w₁)) q in
              let law = laws.put_refuses pk "LATEST" item condition w w₁ refusal in
              (refused_over (latest w source) e law.0, law.1 pk "LATEST"))
            stale)
    where
      pk : String
      pk = "HEARTBEAT#" & source

      condition : Condition
      condition = if_absent_or_older e

      item : Item F
      item = heartbeat_item p table source h e received body_hash

      put : Act W Unit
      put = table.put_item pk "LATEST" item condition
