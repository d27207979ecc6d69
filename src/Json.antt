-- ===== src/Json.antt =====
-- JSON values as the code sees them, and the strict reading of JSON texts:
-- `json.loads(text, object_pairs_hook=_reject_duplicates, parse_constant=...)` of validation.py,
-- event_validation.py, heartbeat_validation.py, llm.py and ml.py.
pub mod Strict
use ea_trading_system.Prelude.{
  ℕ, ℤ, String, ◌≡◌, Bool, true, false, ◌||◌, ◌==◌, Option, none, some, List, [], ◌∷◌,
  if◌then◌else◌,
}
use ea_trading_system.Errors.{Result, ok, err, value_error, ◌>>=◌}

-- A number of Python: `int` or `float`. (`bool` is a value of its own below.)
pub data Number (F : Type 0) : Type 0 where
  whole : ℤ → Number F
  floating : F → Number F

-- The fields of an object stand in insertion order.
mutual
  pub data Value (F : Type 0) : Type 0 where
    null : Value F
    bool : Bool → Value F
    num : Number F → Value F
    str : String → Value F
    arr : Items F → Value F
    obj : Fields F → Value F

  pub data Items (F : Type 0) : Type 0 where
    nil : Items F
    cons : Value F → Items F → Items F

  pub data Fields (F : Type 0) : Type 0 where
    end : Fields F
    field : String → Value F → Fields F → Fields F

-- What the parser reads, before the hooks: an object is a list of pairs, in which a key may stand
-- twice, and `constant` is one of NaN, Infinity and -Infinity.
mutual
  pub data Raw (F : Type 0) : Type 0 where
    null : Raw F
    bool : Bool → Raw F
    num : Number F → Raw F
    constant : String → Raw F
    str : String → Raw F
    arr : RawItems F → Raw F
    obj : RawPairs F → Raw F

  pub data RawItems (F : Type 0) : Type 0 where
    nil : RawItems F
    cons : Raw F → RawItems F → RawItems F

  pub data RawPairs (F : Type 0) : Type 0 where
    end : RawPairs F
    pair : String → Raw F → RawPairs F → RawPairs F

module _ {F : Type 0} where
  -- `fields.get(key)`
  abbrev pub get : String → Fields F → Option (Value F)
  get k end = none
  get k (field j v rest) = if j == k then some v else get k rest

  abbrev pub has_key : String → Fields F → Bool
  has_key k end = false
  has_key k (field j v rest) = j == k || has_key k rest

  abbrev pub keys : Fields F → List String
  keys end = []
  keys (field k v rest) = k ∷ keys rest

  -- `result[key] = value`, for a key that `result` does not have.
  abbrev pub append : Fields F → String → Value F → Fields F
  append end k v = field k v end
  append (field j w rest) k v = field j w (append rest k v)

  -- A dictionary display `{"key": value, ...}` with distinct keys.
  abbrev pub dict : List (String × Value F) → Fields F
  dict [] = end
  dict ((k, v) ∷ rest) = field k v (dict rest)

  insert_all : Fields F → Fields F → Result (Fields F)
  insert_all result end = ok result
  insert_all result (field k v rest) =
      let next = insert_all (append result k v) rest in
      if has_key k result then err value_error else next

  unfoldable pub reject_duplicates : Fields F → Result (Fields F)
  unfolding insert_all
  reject_duplicates pairs = insert_all end pairs

-- The hooks run from the inside out: each object, once its values are read. `constant` raises
-- whatever its token is.
unfoldable mutual
  pub read_value : {F : Type 0} → Raw F → Result (Value F)
  read_value null = ok null
  read_value (bool b) = ok (bool b)
  read_value (num n) = ok (num n)
  read_value (constant token) = err value_error
  read_value (str s) = ok (str s)
  read_value (arr xs) = do items ← read_items xs; ok (arr items)
  read_value (obj ps) = do pairs ← read_pairs ps; result ← reject_duplicates pairs; ok (obj result)

  pub read_items : {F : Type 0} → RawItems F → Result (Items F)
  read_items nil = ok nil
  read_items (cons x xs) = do v ← read_value x; vs ← read_items xs; ok (cons v vs)

  pub read_pairs : {F : Type 0} → RawPairs F → Result (Fields F)
  read_pairs end = ok end
  read_pairs (pair k x rest) = do v ← read_value x; vs ← read_pairs rest; ok (field k v vs)
