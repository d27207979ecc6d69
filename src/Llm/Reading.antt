-- ===== src/Llm/Reading.antt =====
-- llm.py: `_extract_output_text` and `parse_llm_decision`.
use ea_trading_system.Prelude.{
  ℕ, String, Bool, false, ◌&&◌, not, ◌==◌, leb, length, Option, none, some, List, [], ◌∷◌, ◌++◌,
  if◌then◌else◌,
}
use ea_trading_system.Errors.{Result, ok, err, value_error, require, ◌>>=◌, ◌>>◌}
use ea_trading_system.Json.{
  Value, Items, Fields, null, num, str, arr, obj, nil, cons, get, read_value,
}
use ea_trading_system.Python.{Python}
use ea_trading_system.Validation.Fields.{same_keys, item, is_member, as_text}
use ea_trading_system.Validation.Request.{good_reason}
use ea_trading_system.Service.Providers.{is_rate}

abbrev pub decision_fields : List String
decision_fields = "decision" ∷ "confidence" ∷ "reason" ∷ []

-- `if len(texts) != 1: raise ValueError(...)`
abbrev single : List String → Result String
single [] = err value_error
single (t ∷ []) = ok t
single (t ∷ u ∷ ts) = err value_error

module _ {F : Type 0} where
  -- `isinstance(value, dict) and set(value) == DECISION_FIELDS`
  unfoldable pub exact : Value F → Result (Fields F)
  exact (obj fs) = require (same_keys decision_fields fs) value_error >>= λ u. ok fs
  exact null = err value_error
  exact _ = err value_error

  unfoldable pub read_reason : Value F → Result String
  read_reason (str s) = require (good_reason s) value_error >>= λ u. ok s
  read_reason null = err value_error
  read_reason _ = err value_error

  -- `value == text`
  abbrev is_str : Option (Value F) → String → Bool
  is_str (some (str s)) t = s == t
  is_str none t = false
  is_str _ t = false

  -- The texts of one part: one for an output text, none for another part, and an error for a refusal.
  abbrev output_text : Fields F → Option (Value F) → Result (List String)
  output_text part (some (str text)) =
      if is_str (get "type" part) "output_text"
      then ok (text ∷ [])
      else if is_str (get "type" part) "refusal"
      then err value_error
      else ok []
  output_text part none = if is_str (get "type" part) "refusal" then err value_error else ok []
  output_text part _ = if is_str (get "type" part) "refusal" then err value_error else ok []

  abbrev part_texts : Value F → Result (List String)
  part_texts (obj part) = output_text part (get "text" part)
  part_texts null = ok []
  part_texts _ = ok []

  unfoldable pub content_texts : Items F → Result (List String)
  content_texts nil = ok []
  content_texts (cons part rest) =
      part_texts part >>= λ ts. content_texts rest >>= λ us. ok (ts ++ us)

  abbrev message_content : Option (Value F) → Result (List String)
  message_content (some (arr content)) = content_texts content
  message_content none = ok []
  message_content _ = ok []

  abbrev item_texts : Value F → Result (List String)
  item_texts (obj fs) =
      let texts = message_content (get "content" fs) in
      if is_str (get "type" fs) "message" then texts else ok []
  item_texts null = ok []
  item_texts _ = ok []

  unfoldable pub output_texts : Items F → Result (List String)
  output_texts nil = ok []
  output_texts (cons x rest) = item_texts x >>= λ ts. output_texts rest >>= λ us. ok (ts ++ us)

  abbrev output_items : Option (Value F) → Result (Items F)
  output_items (some (arr output)) = ok output
  output_items none = err value_error
  output_items _ = err value_error

  abbrev completed : Value F → Result (Fields F)
  completed (obj fs) = require (is_str (get "status" fs) "completed") value_error >>= λ u. ok fs
  completed null = err value_error
  completed _ = err value_error

  unfoldable pub text_of_response : Value F → Result String
  text_of_response value = do
    response ← completed value
    output ← output_items (get "output" response)
    texts ← output_texts output
    single texts

-- The text is not empty and has at most 2,048 bytes.
abbrev pub acceptable : {F : Type 0} → Python F → String → Bool
acceptable p raw_text = not (raw_text == "") && leb (length (p.encode raw_text)) 2_048

module _ {F : Type 0} ⦃p : Python F⦄ where
  open p use {decode, json_raw, to_float, is_finite}

  abbrev pub read_text : String → Result (Value F)
  read_text text = json_raw text >>= λ raw. read_value raw

  -- `float(confidence)` in its range
  unfoldable pub read_confidence : Value F → Result F
  read_confidence (num n) = do x ← to_float n; require (is_finite x && is_rate x) value_error; ok x
  read_confidence null = err value_error
  read_confidence _ = err value_error

  unfoldable pub read_decision : Value F → Result String
  read_decision v = do
    known ← is_member v ("ALLOW" ∷ "VETO" ∷ [])
    require known value_error
    as_text v

  unfoldable pub parts_of : Fields F → Result (String × F × String)
  parts_of fs = do
    d ← item fs "decision"
    c ← item fs "confidence"
    r ← item fs "reason"
    decision ← read_decision d
    confidence ← read_confidence c
    reason ← read_reason r
    ok (decision, confidence, reason)

  unfoldable pub parse_llm_decision : String → Result (String × F × String)
  parse_llm_decision raw_text = do
    require (acceptable p raw_text) value_error
    value ← read_text raw_text
    fs ← exact value
    parts_of fs

  abbrev decoded : Option String → Result (Value F)
  decoded none = err value_error
  decoded (some text) = read_text text

module _ {F : Type 0} (p : Python F) where
  unfoldable pub extract_output_text : List ℕ → Result String
  extract_output_text raw = do value ← decoded ⦃p = p⦄ (p.decode raw); text_of_response value
