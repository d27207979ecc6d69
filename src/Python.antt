-- ===== src/Python.antt =====
-- What the code takes from Python and its libraries and does not implement: floating-point numbers,
-- the JSON reader and writer, hashes, UUID and time parsing, encodings. A text is a sequence of
-- Unicode scalar values, and bytes are numbers.
mod Patterns
unfoldable pub use Patterns.*
use ea_trading_system.Prelude.{ℕ, ℤ, String, Bool, Option, List}
use ea_trading_system.Errors.{Result}
use ea_trading_system.Json.{Number, Value, Raw}

-- `uuid.UUID(text)`: the canonical text `str(u)`, and `u.version`.
pub record Uuid : Type 0 where
  pub canonical : String
  pub version : Option ℕ

pub record Python (F : Type 0) : Type 0 where
  -- the float literal with this integral value
  pub lit : ℕ → F
  pub is_finite : F → Bool
  pub lt : F → F → Bool
  pub le : F → F → Bool
  pub add : F → F → F
  pub sub : F → F → F
  pub mul : F → F → F
  pub div : F → F → F
  -- `int(x)`, which raises for an infinity or a NaN
  pub truncate : F → Result ℤ
  -- `x == y`, `abs(x)`, `-x`
  pub eq : F → F → Bool
  pub fabs : F → F
  pub neg : F → F
  -- `math.exp`, which raises OverflowError, `math.sin`, `math.cos`, `math.pi`
  pub exp : F → Result F
  pub sin : F → F
  pub cos : F → F
  pub pi : F
  -- `sum(values)` of floats
  pub sum : List F → F
  -- `repr(x)`, and `format(Decimal(text), "f")`
  pub show_float : F → String
  pub plain_decimal : String → String
  -- `float(text)`; `none` is its ValueError
  pub float : String → Option F
  -- `float(x)`, which raises OverflowError for an `int` beyond the floats
  pub to_float : Number F → Result F
  -- `x < y` on any two numbers
  pub less : Number F → Number F → Bool
  -- `raw.decode("utf-8", errors="strict")` and `text.encode("utf-8")`
  pub decode : List ℕ → Option String
  pub encode : String → List ℕ
  -- `base64.b64decode(text, validate=True)`
  pub b64decode : String → Option (List ℕ)
  -- the grammar of `json.loads`, before its hooks; it raises what the reader raises
  pub json_raw : String → Result (Raw F)
  -- `json.loads(text)` with no hooks
  pub json_loads : String → Result (Value F)
  -- `json.dumps(value, separators=(",", ":"), ensure_ascii=True)`
  pub json_dumps : Value F → String
  -- `str(value)` of a value that is not a text
  pub show_value : Value F → String
  -- `hashlib.sha256(data).hexdigest()` and `hmac.new(key, data, sha256).hexdigest()`
  pub sha256 : List ℕ → String
  pub hmac_sha256 : List ℕ → List ℕ → String
  -- `uuid.UUID(text)`; `none` is its ValueError
  pub uuid : String → Option Uuid
  -- `int(text)`; `none` is its ValueError
  pub int : String → Option ℤ
  -- `str(n)` of an integer
  pub show_int : ℤ → String
  -- `text.lower()` and `text.strip()`
  pub lower : String → String
  pub strip : String → String
  -- `datetime.fromisoformat(text.replace("Z", "+00:00"))` in microseconds since the epoch
  pub from_iso : String → Option ℤ
  -- the UTC text of a time in microseconds, its microseconds dropped, with the suffix Z
  pub iso : ℤ → String
