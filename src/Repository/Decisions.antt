-- ===== src/Repository/Decisions.antt =====
-- The table keeps decisions the way the decision service relies on.
use mathlib.Core.Path.{subst}
use ea_trading_system.Prelude.{String, ℤ, ◌&◌, ◌≡◌, sym, ap, ◌∙◌, Option, none, some, arith}
use ea_trading_system.Errors.{Exc, Result, ok, err, conditional_check}
use ea_trading_system.Act.{Act, after, after_lift, after_catch}
use ea_trading_system.Json.{Value, Fields, obj, get}
use ea_trading_system.Python.{Python}
use ea_trading_system.Service.Providers.{Saved}
use ea_trading_system.Service.Idempotence.{RepositoryLaws}
use ea_trading_system.Repository.Table.{Item, Table, TableLaws, if_absent}
use ea_trading_system.Repository.Dynamo.{
  to_write_failed, decision_of, decision_item, get_decision, save_decision, dynamo_decisions,
  response_field, index_attributes,
}

-- A dictionary survives `json.dumps` and `json.loads`.
abbrev pub RoundTrips : {F : Type 0} → Python F → Type 0
RoundTrips {F} p = (fs : Fields F) → p.json_loads (p.json_dumps (obj fs)) ≡ ok (obj fs)

abbrev returned : {A : Type 0} → Result (Option A) → Option A
returned (ok o) = o
returned (err e) = none

module _ {F W : Type 0} (p : Python F) (table : Table F W)
    {view : W → String → String → Option (Item F)} (laws : TableLaws table view) where
  -- The decision on record for a request id.
  abbrev pub decision_view : W → String → Option (Saved F)
  decision_view w id = returned (decision_of p table (view w ("REQUEST#" & id) "DECISION"))

  -- A decision that was written is read back with its hash and its response.
  decision_of-item :
      (id body_hash : String) (response audit : Fields F) (ttl : ℤ) (d r : Value F) (c : Item F)
      → p.json_loads (p.json_dumps (obj response)) ≡ ok (obj response)
      → decision_of p table (some (decision_item p table id body_hash response ttl audit d r c))
        ≡ ok (some (record { body_hash = body_hash; response = response }))
  decision_of-item id body_hash response audit ttl d r c round = rw round

  get_decision-reads :
      (id : String) (w w' : W) (o : Option (Saved F))
      → get_decision p table id w ≡ (ok o, w')
      → (o ≡ decision_view w id) × (decision_view w' id ≡ decision_view w id)
  unfolding get_decision
  get_decision-reads id w w' o h =
      after (table.get_item ("REQUEST#" & id) "DECISION") _ w o w' h λ i w₁ got h₁.
        let law = laws.get_reads ("REQUEST#" & id) "DECISION" i w w₁ got in
        let decoded : decision_of p table i ≡ ok o = ap (λ x. x.0) h₁ in
        let same : w₁ ≡ w' = ap (λ x. x.1) h₁ in
        let there : returned (decision_of p table (view w ("REQUEST#" & id) "DECISION")) ≡ o =
          ap (λ x. returned (decision_of p table x)) (sym law.0) ∙ ap returned decoded in
        (
          sym there,
          subst (λ v. decision_view v id ≡ decision_view w id) same
              (ap (λ x. returned (decision_of p table x)) (law.1 ("REQUEST#" & id) "DECISION")),
        )

  save_decision-writes :
      (id body_hash : String) (response audit : Fields F) (ttl : ℤ) (w w' : W)
      → p.json_loads (p.json_dumps (obj response)) ≡ ok (obj response)
      → save_decision p table id body_hash response ttl audit w ≡ (ok tt, w')
      → decision_view w' id ≡ some (record { body_hash = body_hash; response = response })
  unfolding save_decision
  save_decision-writes id body_hash response audit ttl w w' round h =
      after_lift (response_field (get "decision" response)) _ w tt w' h λ d e₁ h₁.
        after_lift (response_field (get "reason_code" response)) _ w tt w' h₁ λ r e₂ h₂.
          after_lift (index_attributes p (get "trade_candidate_id" audit) response id) _ w tt w' h₂
            λ c e₃ h₃.
              after_catch (put d r c) to_write_failed w tt w' h₃
                (λ done.
                  ap (λ x. returned (decision_of p table x))
                    (laws.put_writes ("REQUEST#" & id) "DECISION" (item d r c) if_absent w w'
                      done).1
                  ∙ ap returned (decision_of-item id body_hash response audit ttl d r c round))
                (λ e w₁ raised h₄. absurd (never e w₁ h₄))
    where
      item : Value F → Value F → Item F → Item F
      item d r c = decision_item p table id body_hash response ttl audit d r c

      put : Value F → Value F → Item F → Act W (Unit {0})
      put d r c = table.put_item ("REQUEST#" & id) "DECISION" (item d r c) if_absent

      never : (e : Exc) (w₁ : W) → to_write_failed {W = W} {A = Unit {0}} e w₁ ≡ (ok tt, w') → ⊥
      never conditional_check w₁ q = ground arith
      never e w₁ q = ground arith

  -- A decision whose response survives `json.dumps` and `json.loads` is read back with its hash and
  -- its whole response, by every read that finds the item which the write left.
  pub saved_then_read :
      (id body_hash : String) (response audit : Fields F) (ttl : ℤ) (w w' v v' : W)
      (o : Option (Saved F))
      → p.json_loads (p.json_dumps (obj response)) ≡ ok (obj response)
      → save_decision p table id body_hash response ttl audit w ≡ (ok tt, w')
      → view v ("REQUEST#" & id) "DECISION" ≡ view w' ("REQUEST#" & id) "DECISION"
      → get_decision p table id v ≡ (ok o, v')
      → o ≡ some (record { body_hash = body_hash; response = response })
  saved_then_read id body_hash response audit ttl w w' v v' o round wrote stays read =
      (get_decision-reads id v v' o read).0
      ∙ ap (λ i. returned (decision_of p table i)) stays
      ∙ save_decision-writes id body_hash response audit ttl w w' round wrote

  -- The table is a decision repository of the kind that the service needs: what is read is what is on
  -- record, and what was saved is on record with its hash and its whole response.
  pub dynamo_decisions-RepositoryLaws :
      RoundTrips p → RepositoryLaws (dynamo_decisions p table) decision_view
  dynamo_decisions-RepositoryLaws round = record {
    get_reads = get_decision-reads;
    save_writes = λ id body_hash response audit ttl w w' h.
        save_decision-writes id body_hash response audit ttl w w' (round response) h;
  }
