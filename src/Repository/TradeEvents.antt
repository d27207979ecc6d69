-- ===== src/Repository/TradeEvents.antt =====
-- A trade event is stored once for each source, time and id.
use mathlib.Core.Path.{subst₂}
use ea_trading_system.Prelude.{
  String, ◌&◌, ◌==◌, eq_iff, ◌≡◌, refl, sym, ap, ◌∙◌, Bool, true, false, Option, none, some, arith,
}
use ea_trading_system.Errors.{Exc, ok, err, conditional_check}
use ea_trading_system.Act.{Act, pure, after, after_catch, raised_by, ◌>>◌}
use ea_trading_system.Python.{Python}
use ea_trading_system.Telemetry.Event.{Event}
use ea_trading_system.Repository.Table.{Item, Table, TableLaws, if_absent}
use ea_trading_system.Repository.Nonces.{free-if_absent}
use ea_trading_system.Repository.Events.{
  event_sort_key, event_item, save_trade_event, after_event, is_repeat, repeated,
}

module _ {F W : Type 0} (p : Python F) (table : Table F W)
    {view : W → String → String → Option (Item F)} (laws : TableLaws table view) where
  abbrev pub stored : W → String → String → Option (Item F)
  stored w source sk = view w ("SOURCE#" & source) sk

  -- What a new or a repeated event means for the item under its key.
  abbrev pub Stored : String → String → String → Item F → Bool → W → W → Type 0
  Stored source sk body_hash item true w w' =
      (stored w source sk ≡ none) × (stored w' source sk ≡ some item)
  Stored source sk body_hash item false w w' =
      (is_repeat (stored w source sk) body_hash ≡ true) × (stored w' source sk ≡ stored w source sk)

  refused_event :
      (source sk body_hash : String) (item : Item F) (w w' w₁ : W) (b t : Bool)
      → is_repeat (stored w source sk) body_hash ≡ t
      → stored w₁ source sk ≡ stored w source sk
      → repeated t w₁ ≡ (ok b, w')
      → Stored source sk body_hash item b w w'
  refused_event source sk body_hash item w w' w₁ b false same kept h = absurd (ground arith)
  refused_event source sk body_hash item w w' w₁ true true same kept h = absurd (ground arith)
  refused_event source sk body_hash item w w' w₁ false true same kept h =
      (same, ap (λ r. stored r.1 source sk) (sym h) ∙ kept)

  after_event-Stored :
      (source sk body_hash : String) (item : Item F) (x : Exc) (w w₁ w' : W) (b : Bool)
      → (x ≡ conditional_check → stored w₁ source sk ≡ stored w source sk)
      → after_event p table ("SOURCE#" & source) sk body_hash x w₁ ≡ (ok b, w')
      → Stored source sk body_hash item b w w'
  after_event-Stored source sk body_hash item conditional_check w w₁ w' b kept h =
      after (table.get_item ("SOURCE#" & source) sk) _ w₁ b w' h λ o w₂ got rest.
        let law = laws.get_reads ("SOURCE#" & source) sk o w₁ w₂ got in
        let seen : o ≡ stored w source sk = law.0 ∙ kept refl in
        refused_event source sk body_hash item w w' w₂ b (is_repeat o body_hash)
          (ap (λ v. is_repeat v body_hash) (sym seen)) (law.1 ("SOURCE#" & source) sk ∙ kept refl)
          rest
  after_event-Stored source sk body_hash item x w w₁ w' b kept h = absurd (ground arith)

  -- An event is new exactly when nothing is stored under its source, time and id, and is then stored
  -- as a whole; it is a repetition only if what is stored has the hash of its body, and then nothing
  -- changes. With another hash the call does not return.
  pub save_trade_event-Stored :
      (source : String) (e : Event F) (body_hash : String) (b : Bool) (w w' : W)
      → save_trade_event p table source e body_hash w ≡ (ok b, w')
      → Stored source (event_sort_key e) body_hash (event_item p table source e body_hash) b w w'
  unfolding save_trade_event
  save_trade_event-Stored source e body_hash b w w' run =
      after_catch (put >> pure true) (after_event p table pk sk body_hash) w b w' run
        (λ done.
          after put (λ u. pure true) w b w' done
            λ u w₁ written h₁.
              let law = laws.put_writes pk sk item if_absent w w₁ written in
              let same : w₁ ≡ w' = ap (λ r. r.1) h₁ in
              let yes : true ≡ b = ground arith in
              subst₂ (λ c v. Stored source sk body_hash item c w v) yes same
                (free-if_absent (stored w source sk) law.0, law.1))
        (λ x w₁ raised again.
          after_event-Stored source sk body_hash item x w w₁ w' b
            (λ q.
              let refusal : put w ≡ (err conditional_check, w₁) =
                raised_by put true w x w₁ raised ∙ ap (λ y. (err y, w₁)) q in
              (laws.put_refuses pk sk item if_absent w w₁ refusal).1 pk sk)
            again)
    where
      pk : String
      pk = "SOURCE#" & source

      sk : String
      sk = event_sort_key e

      item : Item F
      item = event_item p table source e body_hash

      put : Act W Unit
      put = table.put_item pk sk item if_absent

  stored_hash :
      (source body_hash again : String) (e f : Event F) (b : Bool) (v v' : W)
      → stored v source (event_sort_key e) ≡ some (event_item p table source e body_hash)
      → event_sort_key f ≡ event_sort_key e
      → Stored source (event_sort_key f) again (event_item p table source f again) b v v'
      → (b ≡ false)
        × (again ≡ body_hash)
        × (stored v' source (event_sort_key e) ≡ stored v source (event_sort_key e))
  unfolding event_item
  stored_hash source body_hash again e f true v v' there key s =
      absurd (ground (arith, ap (λ k. stored v source k) key))
  stored_hash source body_hash again e f false v v' there key s =
      let hashes : (body_hash == again) ≡ true =
        ap (λ o. is_repeat o again) (sym there)
        ∙ ap (λ k. is_repeat (stored v source k) again) (sym key)
        ∙ s.0 in
      (
        refl,
        ground (arith, eq_iff body_hash again),
        ap (λ k. stored v' source k) (sym key) ∙ s.1 ∙ ap (λ k. stored v source k) key,
      )
