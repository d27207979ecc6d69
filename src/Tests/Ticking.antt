-- ===== src/Tests/Ticking.antt =====
-- A plan, rows of ticks and server times.
use ea_trading_system.Prelude.{
  String, eq_iff, ◌≢◌, ℕ, pos, negsuc, ◌+◌, ◌*◌, ◌/◌, ◌%◌, length, All, ◌≡◌, refl, none, some, List,
  [], ◌∷◌, arith,
}
use ea_trading_system.Errors.{ok}
use ea_trading_system.Tickdata.Chunks.{Calendar, Chunk, plan_chunks}
use ea_trading_system.Tickdata.Plan.{CalendarLaws, Covers, plan_chunks-Covers}
use ea_trading_system.Tickdata.Model.{
  Tick, Row, parsed, rejected_row, split_comma, find_invalid_reason, format_number,
  format_normalized_row, parse_normalized_row,
}
use ea_trading_system.Tickdata.Rows.{parse-format_row}
use ea_trading_system.Tickdata.Normalize.{normalize_rows, started}
use ea_trading_system.Tickdata.Normalized.{
  total, distinct, good_ticks, IsGood, AreDistinct, normalize_rows-accounts,
  normalize_rows-eq-distinct, normalize_rows-clean,
}
use ea_trading_system.Tickdata.Times.{Zones, Rule}
use ea_trading_system.Tickdata.Validate.{
  Policy, Checking, check_lines, check_line, tick_errors, tick_counts, status_of,
}
use ea_trading_system.Tickdata.Sound.{AreSound, check_lines-AreSound}
use ea_trading_system.Tests.World.{p}

-- Years of one month of thirty days.
abbrev pub calendar : Calendar
calendar = record {
  year = λ d. d / 30;
  month = λ d. 12;
  weekday = λ d. d % 7;
  date = λ y m d. some (y * 30);
  last_ordinal = 3_000;
  day_id = λ d. "day";
  month_id = λ d. "month";
  utc_date_to_ms = λ d. pos (d * 86_400_000);
}

calendar_laws : CalendarLaws calendar 3_000
calendar_laws = record {
  has_end = omega arith;
  next_month = λ d less. ((d / 30 + 1) * 30, refl, omega arith);
}

plan_chunks-Covers_example :
    (ks : List Chunk) × (plan_chunks calendar 10 45 "month" ≡ some (ok ks))
    × Covers calendar 10 45 ks
plan_chunks-Covers_example =
    plan_chunks-Covers calendar calendar_laws 10 45 "month" refl (omega arith) (omega arith)

abbrev day_chunk : ℕ → Chunk
day_chunk d = record {
  chunk_id = "day";
  start_ms = pos (d * 86_400_000);
  end_ms = pos ((d + 1) * 86_400_000);
  first_date = d;
  last_date = d;
}

abbrev tick : Tick ℕ
tick = record { timestamp_ms = pos 1_000; bid = 1; ask = 1; bid_volume = 1; ask_volume = 1 }

parse-format_row_example : parse_normalized_row p (format_normalized_row p tick) ≡ ok tick
unfolding format_number
parse-format_row_example =
    parse-format_row p tick refl refl (refl, refl) (refl, refl) (refl, refl) (refl, refl)

abbrev day : Chunk
day = day_chunk 0

abbrev rows : List (Row ℕ)
rows = parsed tick ∷ parsed tick ∷ rejected_row 3 "PARSE_ERROR" ∷ []

normalize_rows-accounts_example :
    (let s = normalize_rows p day rows started in
      (length rows ≡ length s.written + s.duplicates + total s.rejected)
      × (s.ticks_in ≡ length rows)
      × (s.ticks_out ≡ length s.written))
normalize_rows-accounts_example = normalize_rows-accounts p day rows

normalize_rows-eq-distinct_example :
    (normalize_rows p day rows started).written ≡ distinct p none (good_ticks p day rows)
normalize_rows-eq-distinct_example = normalize_rows-eq-distinct p day rows

normalize_rows-clean_example :
    (let ts = (normalize_rows p day rows started).written in
      All (IsGood p day) ts × AreDistinct p none ts)
normalize_rows-clean_example = normalize_rows-clean p day rows

-- New York is five hours behind all year.
abbrev pub zones : Zones
zones = record {
  iso_seconds = λ s. "1970-01-01T00:00:00";
  date_text = λ s. "1970.01.01";
  time_text = λ s. "00:00:00";
  three_digits = λ n. "000";
  date_of_iso = λ s. some 1;
  ny_offset_seconds = λ h. negsuc 17_999;
}

abbrev pub ny_close : Rule ℕ
ny_close = record { mode = "ny_close"; offset_hours = 0 }

abbrev two_lines : List String
two_lines = "1000,1.0,1.0,1.0,1.0" ∷ "1000,1.0,1.0,1.0,1.0" ∷ []

abbrev policy : Policy ℕ
policy = record { max_gap_seconds = 14_400; max_price_jump_ratio = 1 }

abbrev unchecked : Checking ℕ
unchecked = record {
  errors = [];
  tick_count = 0;
  duplicate_count = 0;
  gap_count = 0;
  jump_count = 0;
  first_ts = none;
  last_ts = none;
  previous = none;
}

abbrev checked : Checking ℕ
checked = record {
  errors = [];
  tick_count = 2;
  duplicate_count = 1;
  gap_count = 0;
  jump_count = 0;
  first_ts = some (pos 1_000);
  last_ts = some (pos 1_000);
  previous = some tick;
}

checked_lines : check_lines p policy day two_lines unchecked ≡ ok checked
unfolding check_lines check_line parse_normalized_row split_comma find_invalid_reason tick_errors
    tick_counts
checked_lines = refl

passed : status_of [] [] ≢ "FAIL"
unfolding status_of
passed e = ground (arith, (eq_iff "PASS" "FAIL").1 e)

check_lines-AreSound_example : AreSound p policy day none two_lines
check_lines-AreSound_example =
    check_lines-AreSound p policy day two_lines unchecked checked [] checked_lines passed
