-- ===== src/Llm/Prompt.antt =====
-- llm.py: what the provider sends, `_market_context` and the body of `decide`.
use ea_trading_system.Prelude.{ℕ, pos, Bool, String, Option, none, some, List, [], ◌∷◌}
use ea_trading_system.Errors.{Result, ok, ◌>>=◌}
use ea_trading_system.Json.{
  whole, floating, Value, Items, Fields, num, str, bool, arr, obj, nil, cons, append, dict,
}
use ea_trading_system.Python.{Python}
use ea_trading_system.Validation.Fields.{item}
use ea_trading_system.Validation.Request.{Request, Features, Proposal}
use ea_trading_system.Ml.Features.{quotient}

abbrev pub instructions : String
instructions =
    "You are a conservative anomaly filter for an automated trading candidate. The EA has already fixed the BUY or SELL direction; never choose or change direction. Return ALLOW or VETO only through the required JSON schema. VETO only for material inconsistency, abnormality, or uncertainty visible in the supplied structured values. Do not claim knowledge of news or external facts not supplied. Do not provide hidden reasoning; give one brief factual reason. Confidence never changes position size."

module _ {F : Type 0} where
  abbrev texts : List String → Items F
  texts [] = nil
  texts (t ∷ ts) = cons (str t) (texts ts)

  abbrev int_value : ℕ → Value F
  int_value n = num (whole (pos n))

  abbrev pub schema : Fields F
  schema = dict (
      ("type", str "object")
      ∷ ("additionalProperties", bool Bool.false)
      ∷ ("required", arr (texts ("decision" ∷ "confidence" ∷ "reason" ∷ [])))
      ∷ (
        "properties",
        obj (
            dict (
              (
                "decision",
                obj (
                    dict (
                      ("type", str "string") ∷ ("enum", arr (texts ("ALLOW" ∷ "VETO" ∷ []))) ∷ [])),
              )
              ∷ (
                "confidence",
                obj (
                    dict (
                      ("type", str "number")
                      ∷ ("minimum", int_value 0)
                      ∷ ("maximum", int_value 1)
                      ∷ [])),
              )
              ∷ (
                "reason",
                obj (
                    dict (
                      ("type", str "string")
                      ∷ ("minLength", int_value 1)
                      ∷ ("maxLength", int_value 512)
                      ∷ [])),
              )
              ∷ [])),
      )
      ∷ [])

  abbrev with_temperature : Fields F → Option F → Fields F
  with_temperature body none = body
  with_temperature body (some t) = append body "temperature" (num (floating t))

  unfoldable pub body_of : (model input : String) → Option F → Fields F
  body_of model input temperature =
      with_temperature
        (dict (
          ("model", str model)
          ∷ ("instructions", str instructions)
          ∷ ("input", str input)
          ∷ ("max_output_tokens", int_value 160)
          ∷ (
            "text",
            obj (
                dict (
                  (
                    "format",
                    obj (
                        dict (
                          ("type", str "json_schema")
                          ∷ ("name", str "trade_filter_decision")
                          ∷ ("strict", bool Bool.true)
                          ∷ ("schema", obj schema)
                          ∷ [])),
                  )
                  ∷ [])),
          )
          ∷ []))
        temperature

  abbrev market_fields : Features F → F → Fields F
  market_fields market atr_ratio = dict (
      ("spread_points", num market.spread_points)
      ∷ ("rsi", num market.rsi)
      ∷ ("atr_ratio", num (floating atr_ratio))
      ∷ ("ema_distance_ratio", num market.ema_distance_ratio)
      ∷ ("recent_return", num market.recent_return)
      ∷ ("volatility", num market.volatility)
      ∷ ("hour", num (whole market.hour))
      ∷ ("day_of_week", num (whole market.day_of_week))
      ∷ [])

  abbrev ratio_fields : Proposal F → F → F → Fields F
  ratio_fields proposal stop_distance take_distance = dict (
      ("risk_reward_ratio", num proposal.risk_reward_ratio)
      ∷ ("stop_distance_ratio", num (floating stop_distance))
      ∷ ("take_distance_ratio", num (floating take_distance))
      ∷ [])

module _ {F : Type 0} (p : Python F) where
  open p use {to_float, sub, fabs}

  abbrev distance : F → F → F → Result F
  distance a b entry = quotient p (fabs (sub a b)) entry

  unfoldable pub market_context : Request F → Fields F → Result (Fields F)
  market_context request ml = do
    price ← to_float request.market_features.current_price
    entry ← to_float request.trade_proposal.entry_price
    atr ← to_float request.market_features.atr
    atr_ratio ← quotient p atr price
    stop ← to_float request.trade_proposal.stop_loss
    stop_distance ← distance entry stop entry
    take ← to_float request.trade_proposal.take_profit
    take_distance ← distance take entry entry
    win_probability ← item ml "win_probability"
    expected_return ← item ml "expected_return"
    model_version ← item ml "model_version"
    ok (
        dict (
          ("context_schema_version", str "1.0")
          ∷ ("observed_at", str request.market_features.observed_at)
          ∷ ("symbol", str request.header.symbol)
          ∷ ("timeframe", str request.header.timeframe)
          ∷ ("fixed_direction", str request.header.direction)
          ∷ ("market", obj (market_fields request.market_features atr_ratio))
          ∷ ("proposal", obj (ratio_fields request.trade_proposal stop_distance take_distance))
          ∷ (
            "ml",
            obj (
                dict (
                  ("win_probability", win_probability)
                  ∷ ("expected_return", expected_return)
                  ∷ ("model_version", model_version)
                  ∷ [])),
          )
          ∷ []))
