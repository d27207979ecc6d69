-- ===== src/Tickdata/Model.antt =====
-- model.py: ticks, what makes one invalid, and a line of the normalized format.
use ea_trading_system.Prelude.{
  ℕ, ℤ, String, ◌&◌, ◌&&◌, ◌||◌, not, Option, none, some, List, [], ◌∷◌, nat_eq, any, codes,
  if◌then◌else◌,
}
use ea_trading_system.Errors.{Result, ok, err, value_error}
use ea_trading_system.Python.{Python}
use Prim.Native.Char.{Char, code}

pub record Tick (F : Type 0) : Type 0 where
  pub timestamp_ms : ℤ
  pub bid : F
  pub ask : F
  pub bid_volume : F
  pub ask_volume : F

-- What a provider yields for a line: a tick, or `RejectedRow(line_number, reason)`.
pub data Row (F : Type 0) : Type 0 where
  parsed : Tick F → Row F
  rejected_row : ℕ → String → Row F

abbrev pub normalized_header : String
normalized_header = "timestamp_ms,bid,ask,bid_volume,ask_volume"

abbrev pub push : Char → List String → List String
push c [] = String.◌∷◌ c "" ∷ []
push c (w ∷ ws) = String.◌∷◌ c w ∷ ws

-- `text.split(",")`
unfoldable pub split_comma : String → List String
split_comma String.[] = "" ∷ []
split_comma (String.◌∷◌ c s) =
    let rest = split_comma s in if nat_eq (code c) b',' then "" ∷ rest else push c rest

module _ {F : Type 0} (p : Python F) where
  open p use {is_finite, le, lt, lit, show_float, plain_decimal, show_int, int, float}

  -- The code of the reason why a tick must not be passed on, if there is one.
  unfoldable pub find_invalid_reason : Tick F → Option String
  find_invalid_reason t =
      if not
        (is_finite t.bid && is_finite t.ask && is_finite t.bid_volume && is_finite t.ask_volume)
      then some "NON_FINITE_VALUE"
      else if le t.bid (lit 0) || le t.ask (lit 0)
      then some "NON_POSITIVE_PRICE"
      else if lt t.ask t.bid
      then some "CROSSED_QUOTE"
      else if lt t.bid_volume (lit 0) || lt t.ask_volume (lit 0)
      then some "INVALID_VOLUME"
      else none

  -- `repr` without an exponent
  unfoldable pub format_number : F → String
  format_number x =
      let text = show_float x in
      if any (λ c. nat_eq c b'e' || nat_eq c b'E') (codes text) then plain_decimal text else text

  unfoldable pub format_normalized_row : Tick F → String
  format_normalized_row t =
      show_int t.timestamp_ms
      & (","
          & (format_number t.bid
              & (","
                  & (format_number t.ask
                      & (","
                          & (format_number t.bid_volume & ("," & format_number t.ask_volume)))))))

  abbrev pub tick_of : Option ℤ → Option F → Option F → Option F → Option F → Result (Tick F)
  tick_of (some t) (some b) (some a) (some bv) (some av) =
      ok (record { timestamp_ms = t; bid = b; ask = a; bid_volume = bv; ask_volume = av })
  tick_of none b a bv av = err value_error
  tick_of _ b a bv av = err value_error

  abbrev pub tick_of_parts : List String → Result (Tick F)
  tick_of_parts (t ∷ b ∷ a ∷ bv ∷ av ∷ []) =
      tick_of (int t) (float b) (float a) (float bv) (float av)
  tick_of_parts [] = err value_error
  tick_of_parts _ = err value_error

  -- A line with another number of columns, or with a text that is no number, raises ValueError.
  unfoldable pub parse_normalized_row : String → Result (Tick F)
  parse_normalized_row line = tick_of_parts (split_comma line)
