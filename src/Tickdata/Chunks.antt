-- ===== src/Tickdata/Chunks.antt =====
-- chunks.py: `plan_chunks`. A date is its ordinal, as `date.toordinal` counts.
use ea_trading_system.Prelude.{
  ℕ, ℤ, zero, suc, ◌+◌, ◌-◌, ◌%◌, String, Bool, true, false, ◌==◌, Option, none, some, List, [],
  ◌∷◌, ltb, leb, nat_eq, if◌then◌else◌, one_of,
}
use ea_trading_system.Errors.{Result, ok, err, value_error, overflow_error, require, ◌>>=◌, ◌>>◌}

-- What the code takes from `datetime`: the parts of a date, `date(y, m, d)`, which raises ValueError
-- outside the years 1 to 9999, the last date, `strftime("%Y%m%d")` and `strftime("%Y%m")`, and the
-- milliseconds at which a date starts in UTC (`utc_date_to_ms`). Weekdays count from Monday, 0.
pub record Calendar : Type 0 where
  pub year : ℕ → ℕ
  pub month : ℕ → ℕ
  pub weekday : ℕ → ℕ
  pub date : ℕ → ℕ → ℕ → Option ℕ
  pub last_ordinal : ℕ
  pub day_id : ℕ → String
  pub month_id : ℕ → String
  pub utc_date_to_ms : ℕ → ℤ

-- [start_ms, end_ms), and the first and the last of its dates.
pub record Chunk : Type 0 where
  pub chunk_id : String
  pub start_ms : ℤ
  pub end_ms : ℤ
  pub first_date : ℕ
  pub last_date : ℕ

abbrev pub chunk_units : List String
chunk_units = "day" ∷ "month" ∷ []

abbrev pub min : ℕ → ℕ → ℕ
min a b = if ltb b a then b else a

abbrev found : Option ℕ → Result ℕ
found none = err value_error
found (some d) = ok d

-- `chunks.append(k)`, before the rounds that follow.
abbrev pub with_chunk : Chunk → Option (Result (List Chunk)) → Option (Result (List Chunk))
with_chunk k none = none
with_chunk k (some (ok ks)) = some (ok (k ∷ ks))
with_chunk k (some (err e)) = some (err e)

module _ (c : Calendar) where
  abbrev one_day : Chunk → ℕ → Bool
  one_day k weekday =
      if nat_eq k.first_date k.last_date then nat_eq (c.weekday k.first_date) weekday else false

  abbrev pub is_saturday_only : Chunk → Bool
  is_saturday_only k = one_day k 5

  abbrev pub is_friday_only : Chunk → Bool
  is_friday_only k = one_day k 4

  abbrev pub is_sunday_only : Chunk → Bool
  is_sunday_only k = one_day k 6

  abbrev pub next_month_start : ℕ → Result ℕ
  next_month_start d =
      found (c.date (c.year d + (if nat_eq (c.month d) 12 then 1 else 0)) (c.month d % 12 + 1) 1)

  -- `d + timedelta(days=1)`
  abbrev pub next_day : ℕ → Result ℕ
  next_day d = require (ltb d c.last_ordinal) overflow_error >> ok (d + 1)

  -- The last date and the id of the chunk that starts at the cursor.
  unfoldable pub last_of : Bool → ℕ → ℕ → Result (ℕ × String)
  last_of true cursor to_date = ok (cursor, c.day_id cursor)
  last_of false cursor to_date = do
    start ← next_month_start cursor
    ok (min (start - 1) to_date, c.month_id cursor)

  unfoldable pub next_chunk : Bool → ℕ → ℕ → Result (Chunk × ℕ)
  next_chunk day cursor to_date = do
    (last, chunk_id) ← last_of day cursor to_date
    after ← next_day last
    ok (
      record {
        chunk_id = chunk_id;
        start_ms = c.utc_date_to_ms cursor;
        end_ms = c.utc_date_to_ms after;
        first_date = cursor;
        last_date = last;
      },
      after,
    )

  -- The loop, with the rounds that are left; `none` if they do not suffice.
  unfoldable pub plan_from : ℕ → Bool → ℕ → ℕ → Option (Result (List Chunk))
  plan_from zero day cursor to_date = if leb cursor to_date then none else some (ok [])
  plan_from (suc rounds) day cursor to_date = elim (leb cursor to_date) [
    | false ↦ some (ok [])
    | true ↦ elim (next_chunk day cursor to_date) [
      | err e ↦ some (err e)
      | ok (k, after) ↦ with_chunk k (plan_from rounds day after to_date)
    ]
  ]

  unfoldable pub plan_chunks : ℕ → ℕ → String → Option (Result (List Chunk))
  plan_chunks from_date to_date unit =
      if one_of chunk_units unit
      then (if ltb to_date from_date
          then some (err value_error)
          else plan_from (to_date + 1 - from_date) (unit == "day") from_date to_date)
      else some (err value_error)
