-- ===== src/Tests/Parsing.antt =====
-- Requests and JSON values that are read.
use ea_trading_system.Prelude.{String, ◌⊎◌, ℕ, ◌≡◌, ◌≤◌, ◌<◌, refl, [], ◌∷◌, true}
use ea_trading_system.Errors.{ok}
use ea_trading_system.Python.{Python, full_match, has_control, ends_with_z}
use ea_trading_system.Json.{
  Raw, RawPairs, Value, Fields, pair, field, reject_duplicates, read_value, read_items, read_pairs,
}
use ea_trading_system.Json.Strict.{strict, strict_raw, read_value-strict}
use ea_trading_system.Validation.Fields.{
  item, exact_fields, string, is_member, integer, float_number, number, date_time, canonical_uuid,
  loads, read_body,
}
use ea_trading_system.Validation.Request.{
  good_reason, matching, chosen, check_strategy, checked, check_prices, check_measures,
  check_calendar, utc_text, uuid_text, features_of, check_features, geometry_valid, proposal_of,
  check_proposal, check_header, request_of, check_request, parse_and_validate_request,
  max_body_bytes,
}
use ea_trading_system.Validation.Shape.{IsShaped}
use ea_trading_system.Validation.Contract.{IsContract, parse_and_validate_request-IsContract}
use ea_trading_system.Service.Providers.{is_rate}
use ea_trading_system.Llm.Reading.{
  exact, parts_of, read_decision, read_confidence, read_reason, parse_llm_decision,
}
use ea_trading_system.Llm.Contract.{parse_llm_decision_lem}
use ea_trading_system.Tests.World.{python, number as raw_number, p, request}

pub request_accepted : parse_and_validate_request ⦃p = p⦄ (123 ∷ 125 ∷ []) ≡ ok request
unfolding parse_and_validate_request check_request request_of check_header check_proposal
    proposal_of geometry_valid check_features features_of uuid_text utc_text check_calendar
    check_measures check_prices checked check_strategy chosen matching read_body loads
    canonical_uuid date_time number float_number integer is_member string exact_fields item
    read_value read_items read_pairs reject_duplicates full_match has_control ends_with_z
request_accepted = refl

parse_and_validate_request-IsContract_example :
    (0 < 2)
    × (2 ≤ max_body_bytes)
    × ((v : Value ℕ) × (loads ⦃p = p⦄ (123 ∷ 125 ∷ []) ≡ ok v) × IsShaped ⦃p = p⦄ v)
    × IsContract ⦃p = p⦄ request
parse_and_validate_request-IsContract_example =
    parse_and_validate_request-IsContract ⦃p = p⦄ (123 ∷ 125 ∷ []) request request_accepted

abbrev nested_raw : Raw ℕ
nested_raw =
    Raw.obj
      (pair "a" (Raw.obj (pair "b" Raw.null RawPairs.end)) (pair "b" (Raw.bool true) RawPairs.end))

abbrev nested : Value ℕ
nested = Value.obj (
    field "a" (Value.obj (field "b" Value.null Fields.end))
      (field "b" (Value.bool true) Fields.end))

nested_read : read_value nested_raw ≡ ok nested
unfolding read_value read_items read_pairs reject_duplicates
nested_read = refl

read_value-strict_example : (strict_raw nested_raw ≡ true) × (strict nested ≡ true)
read_value-strict_example = read_value-strict nested_raw nested nested_read

abbrev raw_answer : Raw ℕ
raw_answer = Raw.obj (
    pair "decision" (Raw.str "VETO")
      (pair "confidence" (raw_number 1) (pair "reason" (Raw.str "spread is wide") RawPairs.end)))

abbrev model : Python ℕ
model = python raw_answer Value.null

abbrev answer : String × ℕ × String
answer = ("VETO", 1, "spread is wide")

answer_parsed : parse_llm_decision ⦃p = model⦄ "{}" ≡ ok answer
unfolding parse_llm_decision exact parts_of read_decision read_confidence read_reason item is_member
    read_value read_items read_pairs reject_duplicates full_match has_control
answer_parsed = refl

parse_llm_decision_lem_example :
    ((answer.0 ≡ "ALLOW") ⊎ (answer.0 ≡ "VETO"))
    × ((model.is_finite 1 ≡ true) × (is_rate ⦃p = model⦄ 1 ≡ true))
    × (good_reason answer.2 ≡ true)
parse_llm_decision_lem_example =
    parse_llm_decision_lem ⦃p = model⦄ "{}" "VETO" 1 "spread is wide" answer_parsed
