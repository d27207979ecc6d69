-- ===== src/Repository/Dynamo.antt =====
-- repository.py: `DynamoRepository`, its nonces and its decisions.
use ea_trading_system.Prelude.{ℤ, String, ◌&◌, Option, none, some, [], ◌∷◌, ◌++◌, lookup}
use ea_trading_system.Errors
use ea_trading_system.Errors.{
  Exc, Result, ok, err, conditional_check, conditional_write_failed, key_error, type_error,
}
use ea_trading_system.Act.{Act, raise, lift, catch, ◌>>=◌}
use ea_trading_system.Json.{whole, floating, Value, Fields, null, num, str, obj, end, field, get}
use ea_trading_system.Python.{Python}
use ea_trading_system.Service.Providers.{Saved, DecisionRepository}
use ea_trading_system.Auth.{ReplayStore}
use ea_trading_system.Repository.Table.{Attribute, plain, decimal, Item, if_absent, Table}

-- `raise ConditionalWriteFailed()` for a failed condition, and the exception itself for any other.
abbrev pub to_write_failed : {W A : Type 0} → Exc → Act W A
to_write_failed conditional_check = raise conditional_write_failed
to_write_failed other = raise other

module _ {F : Type 0} where
  abbrev pub text : String → Attribute F
  text s = plain (str s)

  abbrev pub integer : ℤ → Attribute F
  integer n = plain (num (whole n))

  -- `item[key]`, a text
  abbrev pub text_attribute : Option (Attribute F) → Result String
  text_attribute none = err key_error
  text_attribute (some (plain (str s))) = ok s
  text_attribute (some a) = err type_error

  -- `response[key]`
  abbrev pub response_field : Option (Value F) → Result (Value F)
  response_field none = err key_error
  response_field (some v) = ok v

  -- The stored text is that of a dictionary.
  abbrev pub as_fields : Value F → Result (Fields F)
  as_fields (obj fs) = ok fs
  as_fields null = err type_error
  as_fields _ = err type_error

  abbrev attribute : Value F → Attribute F
  attribute (num (floating x)) = decimal x
  attribute null = plain null
  attribute v = plain v

  abbrev audit_attributes : Fields F → Item F
  audit_attributes end = []
  audit_attributes (field k v rest) = ("audit_" & k, attribute v) ∷ audit_attributes rest

  -- A value in a formatted text
  abbrev formatted : Python F → Value F → String
  formatted p (str s) = s
  formatted p null = p.show_value null
  formatted p v = p.show_value v

  -- The index by candidate, if the candidate's id is a text; only then `created_at` is read. An empty
  -- audit adds nothing.
  abbrev pub index_attributes : Python F → Option (Value F) → Fields F → String → Result (Item F)
  index_attributes p (some (str candidate)) response request_id =
      Errors.◌>>=◌ (response_field (get "created_at" response)) λ created_at. ok (
        ("gsi1pk", text ("CANDIDATE#" & candidate))
        ∷ ("gsi1sk", text ("DECISION#" & formatted p created_at & "#" & request_id))
        ∷ [])
  index_attributes p none response request_id = ok []
  index_attributes p _ response request_id = ok []

module _ {F W : Type 0} (p : Python F) (table : Table F W) where
  open p use {json_loads, json_dumps}

  unfoldable pub claim_nonce : String → String → ℤ → Act W (Unit {0})
  claim_nonce key_id nonce expires_epoch =
      let pk = "AUTH#" & key_id in
      let sk = "NONCE#" & nonce in
      catch
        (table.put_item pk sk
          (("pk", text pk) ∷ ("sk", text sk) ∷ ("ttl", integer expires_epoch) ∷ []) if_absent)
        to_write_failed

  abbrev pub saved_of : Item F → Result (Saved F)
  saved_of item = Errors.◌>>=◌ (text_attribute (lookup "body_hash" item)) λ body_hash.
      Errors.◌>>=◌ (text_attribute (lookup "response_json" item)) λ json.
        Errors.◌>>=◌ (json_loads json) λ v.
          Errors.◌>>=◌ (as_fields v)
            λ response. ok (record { body_hash = body_hash; response = response })

  -- An item with no attribute counts as none.
  abbrev pub decision_of : Option (Item F) → Result (Option (Saved F))
  decision_of none = ok none
  decision_of (some []) = ok none
  decision_of (some (a ∷ i)) = Errors.◌>>=◌ (saved_of (a ∷ i)) λ s. ok (some s)

  unfoldable pub get_decision : String → Act W (Option (Saved F))
  get_decision request_id = do
    item ← table.get_item ("REQUEST#" & request_id) "DECISION"
    lift (decision_of item)

  abbrev pub decision_item :
      String → String → Fields F → ℤ → Fields F → Value F → Value F → Item F → Item F
  decision_item request_id body_hash response ttl audit decision reason_code index =
      ("pk", text ("REQUEST#" & request_id))
      ∷ ("sk", text "DECISION")
      ∷ ("body_hash", text body_hash)
      ∷ ("response_json", text (json_dumps (obj response)))
      ∷ ("decision", plain decision)
      ∷ ("reason_code", plain reason_code)
      ∷ ("idempotency_expires_at", integer ttl)
      ∷ (index ++ audit_attributes audit)

  unfoldable pub save_decision : String → String → Fields F → ℤ → Fields F → Act W (Unit {0})
  save_decision request_id body_hash response ttl audit = do
    decision ← lift (response_field (get "decision" response))
    reason_code ← lift (response_field (get "reason_code" response))
    index ← lift (index_attributes p (get "trade_candidate_id" audit) response request_id)
    catch
        (table.put_item ("REQUEST#" & request_id) "DECISION"
          (decision_item request_id body_hash response ttl audit decision reason_code index)
          if_absent)
        to_write_failed

  abbrev pub dynamo_decisions : DecisionRepository F W
  dynamo_decisions = record { get_decision = get_decision; save_decision = save_decision }

  abbrev pub dynamo_nonces : ReplayStore W
  dynamo_nonces = record { claim_nonce = claim_nonce }
