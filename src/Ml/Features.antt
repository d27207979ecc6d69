-- ===== src/Ml/Features.antt =====
-- ml.py: the feature vector of a request.
use ea_trading_system.Prelude.{ℕ, ℤ, String, ◌==◌, List, [], ◌∷◌, ◌++◌, all, if◌then◌else◌}
use ea_trading_system.Errors.{Result, ok, err, value_error, other_error, require, ◌>>=◌, ◌>>◌}
use ea_trading_system.Json.{whole}
use ea_trading_system.Python.{Python}
use ea_trading_system.Validation.Request.{Request, Features, Proposal}

abbrev pub feature_names : List String
feature_names =
    "direction" ∷ "rsi" ∷ "atr_ratio" ∷ "ema_distance_ratio" ∷ "directional_ema_distance"
    ∷ "recent_return" ∷ "volatility" ∷ "spread_points" ∷ "hour_sin" ∷ "hour_cos" ∷ "day_sin"
    ∷ "day_cos" ∷ "risk_reward_ratio" ∷ "stop_distance_ratio" ∷ "take_distance_ratio" ∷ []

module _ {F : Type 0} (p : Python F) where
  open p use {lit, neg, mul, sub, div, eq, fabs, sin, cos, pi, to_float, is_finite}

  -- `a / b` of floats, which raises ZeroDivisionError
  unfoldable pub quotient : F → F → Result F
  quotient a b = if eq b (lit 0) then err other_error else ok (div a b)

  -- `2.0 * math.pi * float(n) / period`
  unfoldable pub angle : ℤ → ℕ → Result F
  angle n period = to_float (whole n) >>= λ x. quotient (mul (mul (lit 2) pi) x) (lit period)

  -- The values of the list display, in its order.
  abbrev pub market_values : Features F → F → F → F → F → Result (List F)
  market_values market direction price hour_angle day_angle = do
    rsi ← to_float market.rsi
    atr ← to_float market.atr
    atr_ratio ← quotient atr price
    ema_distance ← to_float market.ema_distance_ratio
    recent_return ← to_float market.recent_return
    volatility ← to_float market.volatility
    spread ← to_float market.spread_points
    ok (
        direction
        ∷ rsi
        ∷ atr_ratio
        ∷ ema_distance
        ∷ mul direction ema_distance
        ∷ recent_return
        ∷ volatility
        ∷ spread
        ∷ sin hour_angle
        ∷ cos hour_angle
        ∷ sin day_angle
        ∷ cos day_angle
        ∷ [])

  abbrev pub proposal_values : Proposal F → F → Result (List F)
  proposal_values proposal entry = do
    risk_reward ← to_float proposal.risk_reward_ratio
    stop ← to_float proposal.stop_loss
    stop_distance ← quotient (fabs (sub entry stop)) entry
    take ← to_float proposal.take_profit
    take_distance ← quotient (fabs (sub take entry)) entry
    ok (risk_reward ∷ stop_distance ∷ take_distance ∷ [])

  -- `direction == "BUY"`
  abbrev pub sign_of : String → F
  sign_of direction = if direction == "BUY" then lit 1 else neg (lit 1)

  unfoldable pub feature_vector : Request F → Result (List F)
  feature_vector request = do
    price ← to_float request.market_features.current_price
    hour_angle ← angle request.market_features.hour 24
    day_angle ← angle request.market_features.day_of_week 7
    entry ← to_float request.trade_proposal.entry_price
    market ←
        market_values request.market_features (sign_of request.header.direction) price hour_angle
          day_angle
    proposal ← proposal_values request.trade_proposal entry
    require (all is_finite (market ++ proposal)) value_error
    ok (market ++ proposal)
