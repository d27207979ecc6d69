-- ===== src/Tickdata/Validate.antt =====
-- validate.py: the checks of the lines of a chunk, and the status of the findings. The lists of the
-- largest gaps and jumps, and the texts of the examples, are left out.
use ea_trading_system.Prelude.{
  ℕ, ℤ, pos, zero, suc, ◌+◌, ◌*◌, nat_eq, abs, ◌+ℤ◌, ◌-ℤ◌, leb_ℤ, ltb_ℤ, String, ◌==◌, Bool, true,
  false, ◌&&◌, ◌||◌, not, Option, none, some, List, [], ◌∷◌, if◌then◌else◌,
}
use ea_trading_system.Errors.{Result, ok, err, value_error, ◌>>=◌}
use ea_trading_system.Python.{Python}
use ea_trading_system.Tickdata.Chunks.{Chunk}
use ea_trading_system.Tickdata.Model.{Tick, find_invalid_reason, parse_normalized_row}
use ea_trading_system.Tickdata.Normalize.{Counter, same_as}
use ea_trading_system.Tickdata.Times.{floor_div, floor_mod, scaled}
use ea_trading_system.Ml.Features.{quotient}

abbrev pub day_ms : ℕ
day_ms = 86_400_000

-- `ValidationPolicy`
pub record Policy (F : Type 0) : Type 0 where
  pub max_gap_seconds : ℕ
  pub max_price_jump_ratio : F

-- `counts[code] += count`
unfoldable pub add_count : String → ℕ → Counter → Counter
add_count code count [] = (code, count) ∷ []
add_count code count ((k, n) ∷ rest) =
    let later = add_count code count rest in
    if k == code then (k, n + count) ∷ rest else (k, n) ∷ later

-- Saturday noon of a day lies in the interval.
unfoldable pub has_saturday_noon : ℤ → ℤ → ℤ → Bool
has_saturday_noon previous_ms current_ms day =
    nat_eq (floor_mod (day +ℤ pos 3) 7) 5
    && leb_ℤ previous_ms (scaled day_ms day +ℤ pos 43_200_000)
    && leb_ℤ (scaled day_ms day +ℤ pos 43_200_000) current_ms

-- The days from one on, so many.
unfoldable pub any_saturday : ℕ → ℤ → ℤ → ℤ → Bool
any_saturday zero previous_ms current_ms day = false
any_saturday (suc n) previous_ms current_ms day =
    has_saturday_noon previous_ms current_ms day
    || any_saturday n previous_ms current_ms (day +ℤ pos 1)

-- `range(a, b)` is empty unless a < b.
unfoldable pub spans_weekend : ℤ → ℤ → Bool
spans_weekend previous_ms current_ms =
    if leb_ℤ (floor_div previous_ms day_ms) (floor_div current_ms day_ms)
    then any_saturday (suc (abs (floor_div current_ms day_ms -ℤ floor_div previous_ms day_ms)))
        previous_ms current_ms (floor_div previous_ms day_ms)
    else false

-- The local variables of the loop over the lines.
pub record Checking (F : Type 0) : Type 0 where
  pub errors : Counter
  pub tick_count : ℕ
  pub duplicate_count : ℕ
  pub gap_count : ℕ
  pub jump_count : ℕ
  pub first_ts : Option ℤ
  pub last_ts : Option ℤ
  pub previous : Option (Tick F)

abbrev pub first_of : Option ℤ → ℤ → Option ℤ
first_of none t = some t
first_of (some u) t = some u

abbrev pub one_if : Bool → ℕ
one_if true = 1
one_if false = 0

abbrev pub add_reason : Option String → Counter → Counter
add_reason none errors = errors
add_reason (some reason) errors = add_count reason 1 errors

abbrev pub add_unless : Bool → String → Counter → Counter
add_unless true code errors = errors
add_unless false code errors = add_count code 1 errors

module _ {F : Type 0} where
  abbrev pub in_chunk : Chunk → Tick F → Bool
  in_chunk k t = leb_ℤ k.start_ms t.timestamp_ms && ltb_ℤ t.timestamp_ms k.end_ms

  -- `previous is not None and reason is None` leads to the comparison.
  abbrev pub in_order : Option String → Option (Tick F) → Tick F → Bool
  in_order (some reason) previous t = true
  in_order none none t = true
  in_order none (some q) t = not (ltb_ℤ t.timestamp_ms q.timestamp_ms)

  -- The findings of a tick, in the order of the code.
  unfoldable pub tick_errors : Chunk → Tick F → Option String → Option (Tick F) → Counter → Counter
  tick_errors k t reason previous errors =
      add_unless (in_order reason previous t) "TIMESTAMP_NOT_MONOTONIC"
        (add_unless (in_chunk k t) "TIMESTAMP_OUT_OF_RANGE" (add_reason reason errors))

  abbrev pub kept : Option String → Tick F → Option (Tick F) → Option (Tick F)
  kept none t previous = some t
  kept (some reason) t previous = previous

module _ {F : Type 0} (p : Python F) (policy : Policy F) where
  open p use {lit, lt, add, sub, fabs}

  abbrev mid : Tick F → Result F
  mid t = quotient p (add t.bid t.ask) (lit 2)

  unfoldable pub jump_ratio : Tick F → Tick F → Result F
  jump_ratio q t = do
    previous_mid ← mid q
    m ← mid t
    x ← quotient p m previous_mid
    ok (fabs (sub x (lit 1)))

  abbrev pub is_gap : Tick F → Tick F → Bool
  is_gap q t =
      ltb_ℤ (pos (policy.max_gap_seconds * 1_000)) (t.timestamp_ms -ℤ q.timestamp_ms)
      && not (spans_weekend q.timestamp_ms t.timestamp_ms)

  -- Duplicates, gaps and jumps: what a tick adds to their counts.
  abbrev pub compared : Tick F → Tick F → Bool → Bool → Result (ℕ × ℕ × ℕ)
  compared q t true same = ok (0, 0, 0)
  compared q t false true = ok (1, 0, 0)
  compared q t false false = jump_ratio q t >>= λ ratio.
      ok (0, one_if (is_gap q t), one_if (lt policy.max_price_jump_ratio ratio))

  unfoldable pub tick_counts : Tick F → Option String → Option (Tick F) → Result (ℕ × ℕ × ℕ)
  tick_counts t (some reason) previous = ok (0, 0, 0)
  tick_counts t none none = ok (0, 0, 0)
  tick_counts t none (some q) =
      compared q t (ltb_ℤ t.timestamp_ms q.timestamp_ms) (same_as p (some q) t)

  abbrev pub after_tick : Chunk → Tick F → Checking F → ℕ × ℕ × ℕ → Checking F
  after_tick k t c (duplicates, gaps, jumps) = record {
    errors = tick_errors k t (find_invalid_reason p t) c.previous c.errors;
    tick_count = c.tick_count + 1;
    duplicate_count = c.duplicate_count + duplicates;
    gap_count = c.gap_count + gaps;
    jump_count = c.jump_count + jumps;
    first_ts = first_of c.first_ts t.timestamp_ms;
    last_ts = some t.timestamp_ms;
    previous = kept (find_invalid_reason p t) t c.previous;
  }

  abbrev pub with_error : String → Checking F → Checking F
  with_error code c = record {
    errors = add_count code 1 c.errors;
    tick_count = c.tick_count;
    duplicate_count = c.duplicate_count;
    gap_count = c.gap_count;
    jump_count = c.jump_count;
    first_ts = c.first_ts;
    last_ts = c.last_ts;
    previous = c.previous;
  }

  -- `except ValueError` around the reading of the line.
  abbrev pub check_parsed : Chunk → Result (Tick F) → Checking F → Result (Checking F)
  check_parsed k (ok t) c =
      tick_counts t (find_invalid_reason p t) c.previous >>= λ n. ok (after_tick k t c n)
  check_parsed k (err value_error) c = ok (with_error "NON_FINITE_VALUE" c)
  check_parsed k (err e) c = err e

  unfoldable pub check_line : Chunk → String → Checking F → Result (Checking F)
  check_line k line c = check_parsed k (parse_normalized_row p line) c

  unfoldable pub check_lines : Chunk → List String → Checking F → Result (Checking F)
  check_lines k [] c = ok c
  check_lines k (l ∷ ls) c = check_line k l c >>= λ c'. check_lines k ls c'

-- "FAIL", "WARN" or "PASS"
unfoldable pub status_of : (errors warnings : Counter) → String
status_of [] [] = "PASS"
status_of [] (w ∷ ws) = "WARN"
status_of (e ∷ es) warnings = "FAIL"
