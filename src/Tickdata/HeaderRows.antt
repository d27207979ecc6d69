-- ===== src/Tickdata/HeaderRows.antt =====
-- providers/base.py: `iter_header_csv_rows`, the rows of a file with a header line.
use ea_trading_system.Prelude.{
  ℕ, zero, suc, ◌+◌, String, ◌==◌, ◌≡◌, sym, ap, ◌∙◌, Bool, true, false, Option, none, some, List,
  [], ◌∷◌, length, arith, if◌then◌else◌, Bool-cases, inl, inr,
}
use ea_trading_system.Errors.{
  Result, ok, err, value_error, provider_error, ok_path, >>=-eq-ok, ◌>>=◌,
}
use ea_trading_system.Python.{Python}
use ea_trading_system.Tickdata.Model.{Tick, Row, parsed, rejected_row, split_comma}

-- The names of the columns; the volumes may have none.
pub record Columns : Type 0 where
  pub timestamp : String
  pub bid : String
  pub ask : String
  pub bid_volume : Option String
  pub ask_volume : Option String

pub record Indices : Type 0 where
  pub timestamp : ℕ
  pub bid : ℕ
  pub ask : ℕ
  pub bid_volume : Option ℕ
  pub ask_volume : Option ℕ

abbrev after_first : Option ℕ → Option ℕ
after_first none = none
after_first (some n) = some (suc n)

-- `header.index(name)`; `none` is its ValueError.
unfoldable pub index_of : String → List String → Option ℕ
index_of name [] = none
index_of name (h ∷ hs) =
    let later = index_of name hs in if h == name then some 0 else after_first later

abbrev pub found_column : Option ℕ → Result ℕ
found_column none = err (provider_error false)
found_column (some n) = ok n

-- `header.index(name) if name in header else None`
abbrev pub optional_index : Option String → List String → Option ℕ
optional_index none header = none
optional_index (some name) header = index_of name header

unfoldable pub indices_of : Columns → List String → Result Indices
indices_of c header = do
  timestamp ← found_column (index_of c.timestamp header)
  bid ← found_column (index_of c.bid header)
  ask ← found_column (index_of c.ask header)
  ok (record {
    timestamp = timestamp;
    bid = bid;
    ask = ask;
    bid_volume = optional_index c.bid_volume header;
    ask_volume = optional_index c.ask_volume header;
  })

-- `parts[n]`; an IndexError is caught as a ValueError is.
unfoldable pub part_at : List String → ℕ → Result String
part_at [] n = err value_error
part_at (x ∷ xs) zero = ok x
part_at (x ∷ xs) (suc n) = part_at xs n

module _ {F : Type 0} (p : Python F) where
  open p use {float, truncate, lit, strip}

  abbrev number_of : Option F → Result F
  number_of none = err value_error
  number_of (some x) = ok x

  abbrev pub float_at : List String → ℕ → Result F
  float_at parts n = part_at parts n >>= λ text. number_of (float text)

  abbrev pub volume_at : List String → Option ℕ → Result F
  volume_at parts none = ok (lit 0)
  volume_at parts (some n) = float_at parts n

  unfoldable pub tick_at : Indices → List String → Result (Tick F)
  tick_at index parts = do
    seconds ← float_at parts index.timestamp
    timestamp_ms ← truncate seconds
    bid ← float_at parts index.bid
    ask ← float_at parts index.ask
    bid_volume ← volume_at parts index.bid_volume
    ask_volume ← volume_at parts index.ask_volume
    ok (record {
      timestamp_ms = timestamp_ms;
      bid = bid;
      ask = ask;
      bid_volume = bid_volume;
      ask_volume = ask_volume;
    })

  -- `except (ValueError, IndexError)`: any other error is raised.
  abbrev pub row_of : ℕ → Result (Tick F) → Result (Row F)
  row_of n (ok t) = ok (parsed t)
  row_of n (err value_error) = ok (rejected_row n "PARSE_ERROR")
  row_of n (err e) = err e

  -- The rows of the lines from the n-th on; a blank line gives none.
  unfoldable pub rows_from : Indices → ℕ → List String → Result (List (Row F))
  rows_from index n [] = ok []
  rows_from index n (l ∷ ls) =
      let rest = rows_from index (n + 1) ls in
      if strip l == ""
      then rest
      else row_of n (tick_at index (split_comma (strip l))) >>= λ row.
          rest >>= λ rows. ok (row ∷ rows)

  abbrev rows_after : Columns → Bool → String → List String → Result (List (Row F))
  rows_after c true header ls = ok []
  rows_after c false header ls = indices_of c (split_comma header) >>= λ index. rows_from index 2 ls

  -- The lines of the file; one that is empty has an empty header.
  unfoldable pub header_csv_rows : Columns → List String → Result (List (Row F))
  header_csv_rows c [] = ok []
  header_csv_rows c (l ∷ ls) = rows_after c (strip l == "") (strip l) ls

  abbrev pub filled : List String → ℕ
  filled [] = 0
  filled (l ∷ ls) = (if strip l == "" then 0 else 1) + filled ls

  -- Each line that is not blank is a row, a tick or a rejection.
  pub rows_from-length :
      (index : Indices) (n : ℕ) (ls : List String) (rows : List (Row F))
      → rows_from index n ls ≡ ok rows
      → length rows ≡ filled ls
  unfolding rows_from
  rows_from-length index n [] rows h = ap length (sym (ok_path h))
  rows_from-length index n (l ∷ ls) rows h = elim (Bool-cases (strip l == "")) [
    | inl blank ↦ ground (arith, blank, rows_from-length index (n + 1) ls rows)
    | inr text ↦
        let run : (row_of n (tick_at index (split_comma (strip l))) >>= λ row.
        rows_from index (n + 1) ls >>= λ rs. ok (row ∷ rs))
            ≡ ok rows =
          ground (arith, text, h) in
        let (row, e₁, h₁) =
          >>=-eq-ok (row_of n (tick_at index (split_comma (strip l)))) _ rows run in
        let (rest, e₂, h₂) = >>=-eq-ok (rows_from index (n + 1) ls) _ rows h₁ in
        let more : length rest ≡ filled ls = rows_from-length index (n + 1) ls rest e₂ in
        ap length (sym (ok_path h₂)) ∙ ground (arith, text, more)
  ]
