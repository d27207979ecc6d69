-- ===== src/Tickdata/Normalize.antt =====
-- normalize.py: the loop of `normalize_file` over the rows of a file.
use ea_trading_system.Prelude.{
  ℕ, ℤ, ◌+◌, leb_ℤ, ltb_ℤ, eq_ℤ, String, ◌==◌, Bool, true, false, ◌&&◌, Option, none, some, List,
  [], ◌∷◌, ◌++◌, if◌then◌else◌,
}
use ea_trading_system.Python.{Python}
use ea_trading_system.Tickdata.Chunks.{Chunk}
use ea_trading_system.Tickdata.Model.{Tick, Row, parsed, rejected_row, find_invalid_reason}

abbrev pub Counter : Type 0
Counter = List (String × ℕ)

-- `counter[key] += 1`
unfoldable pub increment : String → Counter → Counter
increment key [] = (key, 1) ∷ []
increment key ((k, n) ∷ rest) =
    let later = increment key rest in if k == key then (k, n + 1) ∷ rest else (k, n) ∷ later

-- The local variables of the loop, and what it has written, a tick for a line.
pub record Progress (F : Type 0) : Type 0 where
  pub ticks_in : ℕ
  pub ticks_out : ℕ
  pub duplicates : ℕ
  pub rejected : Counter
  pub first_timestamp_ms : Option ℤ
  pub last_timestamp_ms : Option ℤ
  pub previous : Option (Tick F)
  pub written : List (Tick F)

abbrev pub started : {F : Type 0} → Progress F
started = record {
  ticks_in = 0;
  ticks_out = 0;
  duplicates = 0;
  rejected = [];
  first_timestamp_ms = none;
  last_timestamp_ms = none;
  previous = none;
  written = [];
}

abbrev pub or_first : Option ℤ → ℤ → Option ℤ
or_first none t = some t
or_first (some f) t = some f

-- The counters after one more row, before its fate is known.
abbrev pub counted : {F : Type 0} → Progress F → Progress F
counted s = record s { ticks_in = s.ticks_in + 1 }

abbrev pub reject : {F : Type 0} → String → Progress F → Progress F
reject reason s = record s { rejected = increment reason s.rejected }

abbrev pub duplicate : {F : Type 0} → Progress F → Progress F
duplicate s = record s { duplicates = s.duplicates + 1 }

abbrev pub write : {F : Type 0} → Tick F → Progress F → Progress F
write t s = record s {
  ticks_out = s.ticks_out + 1;
  first_timestamp_ms = or_first s.first_timestamp_ms t.timestamp_ms;
  last_timestamp_ms = some t.timestamp_ms;
  previous = some t;
  written = s.written ++ (t ∷ []);
}

module _ {F : Type 0} (p : Python F) where
  -- `row == previous`
  abbrev pub same_as : Option (Tick F) → Tick F → Bool
  same_as none t = false
  same_as (some u) t =
      eq_ℤ t.timestamp_ms u.timestamp_ms
      && p.eq t.bid u.bid
      && p.eq t.ask u.ask
      && p.eq t.bid_volume u.bid_volume
      && p.eq t.ask_volume u.ask_volume

  abbrev or_out_of_range : Option String → Bool → Option String
  or_out_of_range (some reason) within = some reason
  or_out_of_range none true = none
  or_out_of_range none false = some "TIMESTAMP_OUT_OF_RANGE"

  -- Why a tick is left out of a chunk, if it is.
  unfoldable pub reason_for : Chunk → Tick F → Option String
  reason_for chunk t =
      or_out_of_range (find_invalid_reason p t)
        (leb_ℤ chunk.start_ms t.timestamp_ms && ltb_ℤ t.timestamp_ms chunk.end_ms)

  abbrev pub keep_tick : Tick F → Option String → Progress F → Progress F
  keep_tick t (some reason) s = reject reason s
  keep_tick t none s = if same_as s.previous t then duplicate s else write t s

  unfoldable pub normalize_row : Chunk → Row F → Progress F → Progress F
  normalize_row chunk (rejected_row line reason) s = reject reason (counted s)
  normalize_row chunk (parsed t) s = keep_tick t (reason_for chunk t) (counted s)

  unfoldable pub normalize_rows : Chunk → List (Row F) → Progress F → Progress F
  normalize_rows chunk [] s = s
  normalize_rows chunk (row ∷ rows) s = normalize_rows chunk rows (normalize_row chunk row s)
