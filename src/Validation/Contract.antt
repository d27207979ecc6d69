-- ===== src/Validation/Contract.antt =====
-- What a decision request satisfies once it is accepted (contracts/trade-decision-request.schema.json).
use ea_trading_system.Prelude.{
  ℕ, ◌≤◌, ◌<◌, length, String, ◌&◌, ◌≡◌, refl, Bool, true, Option, none, some, List, [], ◌∷◌, arith,
  one_of, eq_iff,
}
use ea_trading_system.Errors.{Exc, Result, ok, api, err, >>=-eq-ok}
use ea_trading_system.Json.{Value, Fields}
use ea_trading_system.Python.{
  Python, Uuid, full_match, is_identifier, is_candidate, is_symbol, is_reason_code,
}
use ea_trading_system.Validation.Fields.{
  as_api_error, loads, invalid, item, exact_fields, string, is_member, canonical, canonical_uuid,
  is_v4, read_body,
}
use ea_trading_system.Validation.Request.{
  Request, Header, Strategy, matching, chosen, check_strategy, uuid_text, check_header,
  check_request, request_of, parse_and_validate_request, timeframes, directions, good_reason,
  root_fields, max_body_bytes,
}
use ea_trading_system.Validation.Shape.{IsShaped, check_request-IsShaped}
use ea_trading_system.Validation.Bounds.{
  IsUtc, IsFeatures, IsProposal, check_features-IsFeatures, check_proposal-IsProposal,
  utc_text-IsUtc,
}

as_api_error_lem :
    {A : Type 0} (e : Exc) (x : Result A) (a : A) → as_api_error e x ≡ ok a → x ≡ ok a
as_api_error_lem e (ok b) a h = h
as_api_error_lem e (err x) a h = absurd (ground arith)

pub record IsStrategy (s : Strategy) : Type 0 where
  pub pattern : one_of ("BREAKOUT" ∷ "PULLBACK" ∷ []) s.pattern ≡ true
  pub reason_code : full_match is_reason_code 1 64 s.reason_code ≡ true
  pub reason : good_reason s.reason ≡ true

check_strategy-IsStrategy :
    {F : Type 0} (root : Fields F) (s : Strategy) → check_strategy root ≡ ok s → IsStrategy s
unfolding check_strategy matching chosen is_member string item exact_fields
check_strategy-IsStrategy root s h = ground arith

module _ {F : Type 0} (p : Python F) where
  -- The canonical text of a version 4 UUID, up to the case of its letters.
  pub record IsUuid4 (text : String) : Type 0 where
    pub value : Uuid
    pub parsed : p.uuid text ≡ some value
    pub canonical : value.canonical ≡ p.lower text
    pub version : is_v4 value ≡ true

  pub record IsHeader (r : Header) : Type 0 where
    pub request_id : IsUuid4 r.request_id
    pub trade_candidate_id : full_match is_candidate 1 128 r.trade_candidate_id ≡ true
    pub ea_id : full_match is_identifier 1 64 r.ea_id ≡ true
    pub timestamp : IsUtc p r.timestamp
    pub symbol : full_match is_symbol 1 32 r.symbol ≡ true
    pub timeframe : one_of timeframes r.timeframe ≡ true
    pub direction : one_of directions r.direction ≡ true

module _ {F : Type 0} ⦃p : Python F⦄ where
  pub record IsContract (r : Request F) : Type 0 where
    pub header : IsHeader p r.header
    pub strategy : IsStrategy r.strategy
    pub market_features : IsFeatures r.market_features
    pub trade_proposal : IsProposal r.direction r.trade_proposal

  matching_lem :
      (fs : Fields F) (key path : String) (test : String → Bool) (message text : String)
      → matching fs key path test message ≡ ok text
      → test text ≡ true
  unfolding matching item string
  matching_lem fs key path test message text h = ground arith

  chosen_lem :
      (fs : Fields F) (key : String) (words : List String) (message text : String)
      → chosen fs key words message ≡ ok text
      → one_of words text ≡ true
  unfolding chosen item is_member
  chosen_lem fs key words message text h = ground arith

  canonical-IsUuid4 :
      (o : Option Uuid) (text path t : String)
      → p.uuid text ≡ o
      → canonical o (p.lower text) text path ≡ ok t
      → IsUuid4 p t
  canonical-IsUuid4 none text path t e h = absurd (clash h)
    where
      clash : Path (Result String) (err (invalid (path & " is not a UUID"))) (ok t) → ⊥
      clash q = ground arith
  canonical-IsUuid4 (some u) text path t e h =
      let same : t ≡ text = ground arith in
      rw same (record {
        value = u;
        parsed = e;
        canonical = ground (arith, eq_iff u.canonical (p.lower text));
        version = ground arith;
      })

  canonical_uuid-IsUuid4 :
      (v : Value F) (path text : String) → canonical_uuid v path ≡ ok text → IsUuid4 p text
  unfolding canonical_uuid
  canonical_uuid-IsUuid4 v path text h =
      let (t, _, h') =
        >>=-eq-ok (string v path) (λ t. canonical (p.uuid t) (p.lower t) t path) text h in
      canonical-IsUuid4 (p.uuid t) t path text refl h'

  uuid_text-IsUuid4 :
      (fs : Fields F) (key text : String) → uuid_text fs key ≡ ok text → IsUuid4 p text
  unfolding uuid_text
  uuid_text-IsUuid4 fs key text h =
      let (v, _, h') = >>=-eq-ok (item fs key) (λ v. canonical_uuid v key) text h in
      canonical_uuid-IsUuid4 v key text h'

  check_header-IsHeader : (fs : Fields F) (r : Header) → check_header fs ≡ ok r → IsHeader p r
  unfolding check_header
  check_header-IsHeader fs r h = ground (
    arith,
    uuid_text-IsUuid4 fs "request_id" r.request_id,
    matching_lem fs "trade_candidate_id" "trade_candidate_id" (full_match is_candidate 1 128)
        "trade_candidate_id is invalid" r.trade_candidate_id,
    matching_lem fs "ea_id" "ea_id" (full_match is_identifier 1 64) "ea_id is invalid" r.ea_id,
    utc_text-IsUtc fs "timestamp" "timestamp" r.timestamp,
    matching_lem fs "symbol" "symbol" (full_match is_symbol 1 32) "symbol is invalid" r.symbol,
    chosen_lem fs "timeframe" timeframes "timeframe or direction is invalid" r.timeframe,
    chosen_lem fs "direction" directions "timeframe or direction is invalid" r.direction,
  )

  request_of-IsContract : (fs : Fields F) (r : Request F) → request_of fs ≡ ok r → IsContract r
  unfolding request_of
  request_of-IsContract fs r h = ground (
    arith,
    check_header-IsHeader fs r.header,
    check_strategy-IsStrategy fs r.strategy,
    check_features-IsFeatures fs r.market_features,
    check_proposal-IsProposal fs r.direction r.trade_proposal,
  )

  check_request-IsContract : (v : Value F) (r : Request F) → check_request v ≡ ok r → IsContract r
  unfolding check_request
  check_request-IsContract v r h =
      let (fs, _, h') = >>=-eq-ok (exact_fields v root_fields "request") request_of r h in
      request_of-IsContract fs r h'

  read_body-size :
      (raw : List ℕ) (limit : ℕ) (size json : Exc) (v : Value F)
      → read_body raw limit size json ≡ ok v
      → (0 < length raw) × (length raw ≤ limit) × (loads raw ≡ ok v)
  unfolding read_body
  read_body-size raw limit size json v h = ground (arith, as_api_error_lem json (loads raw) v)

  -- A body that is accepted is neither empty nor larger than the limit; its JSON value and each of its
  -- three parts have exactly the keys of the contract, both versions are 1.0, and the request that it
  -- gives satisfies the contract: its identifiers, times, enumerations and texts have their forms,
  -- every number is finite and within its bounds, and the stop, the entry and the target of the
  -- proposal stand in the order that its direction asks for.
  pub parse_and_validate_request-IsContract :
      (raw : List ℕ) (r : Request F)
      → parse_and_validate_request raw ≡ ok r
      → (0 < length raw)
        × (length raw ≤ max_body_bytes)
        × ((v : Value F) × (loads raw ≡ ok v) × IsShaped v)
        × IsContract r
  unfolding parse_and_validate_request
  parse_and_validate_request-IsContract raw r h =
      let (v, e, h') =
        >>=-eq-ok
          (read_body raw max_body_bytes (invalid "body is empty or too large")
            (api 400 "INVALID_JSON" "body must be strict UTF-8 JSON"))
          check_request r h in
      let size = read_body-size raw max_body_bytes _ _ v e in
      (size.0, size.1, (v, size.2, check_request-IsShaped v r h'), check_request-IsContract v r h')
