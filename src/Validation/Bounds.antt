-- ===== src/Validation/Bounds.antt =====
-- validation.py: the bounds that the numbers of an accepted request keep.
use ea_trading_system.Prelude.{
  ℕ, ℤ, pos, String, ◌&◌, ◌≡◌, Bool, true, false, Option, none, some, ◌≤ℤ◌, arith,
}
use ea_trading_system.Errors.{ok, ◌>>=◌, >>=-eq-ok}
use ea_trading_system.Json.{Number, Value, Fields, null, num}
use ea_trading_system.Python.{Python, ends_with_z}
use ea_trading_system.Validation.Fields.{
  item, exact_fields, string, as_text, integer, Minimum, any_number, at_least, above, number,
  float_number, below_minimum, above_maximum, date_time,
}
use ea_trading_system.Validation.Request.{
  Features, Proposal, as_number, checked, check_prices, check_measures, check_features, features_of,
  utc_text, check_calendar, check_proposal, proposal_of, proposal_fields, feature_fields,
  geometry_valid,
}

-- The text was read as a time.
abbrev pub is_read : Option ℤ → Bool
is_read none = false
is_read (some t) = true

-- An ISO-8601 time in UTC, with the suffix Z.
pub record IsUtc {F : Type 0} (p : Python F) (text : String) : Type 0 where
  pub suffix : ends_with_z text ≡ true
  pub read : is_read (p.from_iso text) ≡ true

module _ {F : Type 0} ⦃p : Python F⦄ where
  -- The number is finite as a float and within its bounds.
  pub record InRange (n : Number F) (minimum : Minimum) (maximum : Option ℕ) : Type 0 where
    pub value : F
    pub as_float : p.to_float n ≡ ok value
    pub finite : p.is_finite value ≡ true
    pub above_minimum : below_minimum value minimum ≡ false
    pub below_maximum : above_maximum value maximum ≡ false

  float_number-InRange :
      (n : Number F) (path : String) (minimum : Minimum) (maximum : Option ℕ) (x : F)
      → float_number n path minimum maximum ≡ ok x
      → (p.to_float n ≡ ok x)
        × (p.is_finite x ≡ true)
        × (below_minimum x minimum ≡ false)
        × (above_maximum x maximum ≡ false)
  unfolding float_number
  float_number-InRange n path minimum maximum x h = ground arith

  -- What `_number` accepts and `as_number` then gives.
  number-InRange :
      (v : Value F) (path : String) (minimum : Minimum) (maximum : Option ℕ) (n : Number F)
      → (number v path minimum maximum >>= λ x. as_number v) ≡ ok n
      → InRange n minimum maximum
  unfolding number
  number-InRange (num n') path minimum maximum n h =
      let (x, e, e') = >>=-eq-ok (float_number n' path minimum maximum) (λ x. ok n') n h in
      let facts = float_number-InRange n' path minimum maximum x e in
      record {
        value = x;
        as_float = ground arith;
        finite = facts.1;
        above_minimum = facts.2;
        below_maximum = facts.3;
      }
  number-InRange null path minimum maximum n h = ground arith
  number-InRange _ path minimum maximum n h = ground arith

  checked-InRange :
      (fs : Fields F) (key prefix : String) (minimum : Minimum) (maximum : Option ℕ) (n : Number F)
      → checked fs key prefix minimum maximum ≡ ok n
      → InRange n minimum maximum
  unfolding checked
  checked-InRange fs key prefix minimum maximum n h =
      let (v, e, e') =
        >>=-eq-ok (item fs key) (λ v. number v (prefix & key) minimum maximum >>= λ x. as_number v)
          n h in
      number-InRange v (prefix & key) minimum maximum n e'

module _ {F : Type 0} ⦃p : Python F⦄ where
  check_prices-InRange :
      (fs : Fields F) (a b c d : Number F)
      → check_prices fs ≡ ok (a, b, c, d)
      → InRange a (above 0) none
        × InRange b (above 0) none
        × InRange c (above 0) none
        × InRange d (above 0) none
  unfolding check_prices
  check_prices-InRange fs a b c d h = ground (
    arith,
    checked-InRange fs "current_price" "market_features." (above 0) none a,
    checked-InRange fs "atr" "market_features." (above 0) none b,
    checked-InRange fs "ema50" "market_features." (above 0) none c,
    checked-InRange fs "ema200" "market_features." (above 0) none d,
  )

  check_measures-InRange :
      (fs : Fields F) (a b c d e : Number F)
      → check_measures fs ≡ ok (a, b, c, d, e)
      → InRange a (at_least 0) none
        × InRange b (at_least 0) (some 100)
        × InRange c any_number none
        × InRange d any_number none
        × InRange e (at_least 0) none
  unfolding check_measures
  check_measures-InRange fs a b c d e h = ground (
    arith,
    checked-InRange fs "spread_points" "market_features." (at_least 0) none a,
    checked-InRange fs "rsi" "market_features." (at_least 0) (some 100) b,
    checked-InRange fs "ema_distance_ratio" "market_features." any_number none c,
    checked-InRange fs "recent_return" "market_features." any_number none d,
    checked-InRange fs "volatility" "market_features." (at_least 0) none e,
  )

  pub record IsProposal (direction : String) (r : Proposal F) : Type 0 where
    pub entry : InRange r.entry_price (above 0) none
    pub stop : InRange r.stop_loss (above 0) none
    pub take : InRange r.take_profit (above 0) none
    pub ratio : InRange r.risk_reward_ratio (above 0) none
    pub geometry : geometry_valid direction r.entry_price r.stop_loss r.take_profit ≡ true

  proposal_of-IsProposal :
      (fs : Fields F) (direction : String) (r : Proposal F)
      → proposal_of fs direction ≡ ok r
      → IsProposal direction r
  unfolding proposal_of
  proposal_of-IsProposal fs direction r h = ground (
    arith,
    checked-InRange fs "entry_price" "trade_proposal." (above 0) none r.entry_price,
    checked-InRange fs "stop_loss" "trade_proposal." (above 0) none r.stop_loss,
    checked-InRange fs "take_profit" "trade_proposal." (above 0) none r.take_profit,
    checked-InRange fs "risk_reward_ratio" "trade_proposal." (above 0) none r.risk_reward_ratio,
  )

  pub check_proposal-IsProposal :
      (root : Fields F) (direction : String) (r : Proposal F)
      → check_proposal root direction ≡ ok r
      → IsProposal direction r
  unfolding check_proposal
  check_proposal-IsProposal root direction r h =
      let (v, _, h₁) =
        >>=-eq-ok (item root "trade_proposal")
          (λ v. exact_fields v proposal_fields "trade_proposal" >>= λ fs. proposal_of fs direction)
          r h in
      let (fs, _, h') =
        >>=-eq-ok (exact_fields v proposal_fields "trade_proposal") (λ fs. proposal_of fs direction)
          r h₁ in
      proposal_of-IsProposal fs direction r h'

  pub record IsFeatures (r : Features F) : Type 0 where
    pub observed_at : IsUtc p r.observed_at
    pub current_price : InRange r.current_price (above 0) none
    pub atr : InRange r.atr (above 0) none
    pub ema50 : InRange r.ema50 (above 0) none
    pub ema200 : InRange r.ema200 (above 0) none
    pub spread_points : InRange r.spread_points (at_least 0) none
    pub rsi : InRange r.rsi (at_least 0) (some 100)
    pub ema_distance_ratio : InRange r.ema_distance_ratio any_number none
    pub recent_return : InRange r.recent_return any_number none
    pub volatility : InRange r.volatility (at_least 0) none
    pub hour : (pos 0 ≤ℤ r.hour) × (r.hour ≤ℤ pos 23)
    pub day_of_week : (pos 0 ≤ℤ r.day_of_week) × (r.day_of_week ≤ℤ pos 6)

  integer_bounds :
      (v : Value F) (path : String) (lo hi : ℕ) (n : ℤ)
      → integer v path lo hi ≡ ok n
      → (pos lo ≤ℤ n) × (n ≤ℤ pos hi)
  unfolding integer
  integer_bounds v path lo hi n h = ground arith

  date_time-IsUtc :
      (v : Value F) (path text : String) (t : ℤ)
      → date_time v path ≡ ok t
      → as_text v ≡ ok text
      → IsUtc p text
  unfolding date_time string
  date_time-IsUtc v path text t h e = record { suffix = ground arith; read = ground arith }

  pub utc_text-IsUtc :
      (fs : Fields F) (key path text : String) → utc_text fs key path ≡ ok text → IsUtc p text
  unfolding utc_text
  utc_text-IsUtc fs key path text h =
      let (v, _, h') = >>=-eq-ok (item fs key) (λ v. date_time v path >>= λ t. as_text v) text h in
      let (t, e, e') = >>=-eq-ok (date_time v path) (λ t. as_text v) text h' in
      date_time-IsUtc v path text t e e'

  check_calendar_bounds :
      (fs : Fields F) (hour day : ℤ)
      → check_calendar fs ≡ ok (hour, day)
      → (pos 0 ≤ℤ hour) × (hour ≤ℤ pos 23) × (pos 0 ≤ℤ day) × (day ≤ℤ pos 6)
  unfolding check_calendar integer item
  check_calendar_bounds fs hour day h = ground arith

  features_of-IsFeatures : (fs : Fields F) (r : Features F) → features_of fs ≡ ok r → IsFeatures r
  unfolding features_of
  features_of-IsFeatures fs r h = ground (
    arith,
    utc_text-IsUtc fs "observed_at" "market_features.observed_at" r.observed_at,
    check_prices-InRange fs r.current_price r.atr r.ema50 r.ema200,
    check_measures-InRange fs r.spread_points r.rsi r.ema_distance_ratio r.recent_return
        r.volatility,
    check_calendar_bounds fs r.hour r.day_of_week,
  )

  pub check_features-IsFeatures :
      (root : Fields F) (r : Features F) → check_features root ≡ ok r → IsFeatures r
  unfolding check_features
  check_features-IsFeatures root r h =
      let (v, _, h₁) =
        >>=-eq-ok (item root "market_features")
          (λ v. exact_fields v feature_fields "market_features" >>= features_of) r h in
      let (fs, _, h') =
        >>=-eq-ok (exact_fields v feature_fields "market_features") features_of r h₁ in
      features_of-IsFeatures fs r h'
