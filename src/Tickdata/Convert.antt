-- ===== src/Tickdata/Convert.antt =====
-- convert.py: the normalized ticks as monthly files in server time; and `dataset_fingerprint` of
-- validate.py.
pub mod Lines
pub mod Counted
pub mod Run
pub mod Refused
use ea_trading_system.Prelude.{
  ℕ, ℤ, suc, zero, negsuc, ◌+◌, ltb_ℤ, nat_eq, String, ◌&◌, ◌==◌, Bool, true, false, ◌&&◌, ◌||◌,
  not, Option, none, some, List, [], ◌∷◌, ◌++◌, one_of, lookup, if◌then◌else◌,
}
use Prim.Native.Char.{code}
use ea_trading_system.Errors.{Result, ok, err, runtime_error, other_error}
use ea_trading_system.Act.{Act, pure, raise, lift, catch, require, ◌>>=◌, ◌>>◌}
use ea_trading_system.Python.{Python}
use ea_trading_system.Tickdata.Chunks.{Chunk}
use ea_trading_system.Tickdata.Model.{Tick, format_number, parse_normalized_row}
use ea_trading_system.Tickdata.Times.{
  Zones, Rule, Formatter, new_formatter, format, utc_ms_to_iso, utc_ms_to_server_wall_ms,
}
use ea_trading_system.Tickdata.Store.{
  Files, Stats, Normalized, Entry, Manifest, item, save_manifest,
}
use ea_trading_system.Tickdata.Download.{Store, normalized_path}

abbrev pub conversion_version : String
conversion_version = "1"

abbrev pub status_complete : String
status_complete = "complete"

abbrev pub mt5_target : String
mt5_target = "mt5-tab"

abbrev pub mt5_header : String
mt5_header = "<DATE>\t<TIME>\t<BID>\t<ASK>\t<LAST>\t<VOLUME>"

-- manifest["validation"], as far as it is read here
pub record Validation : Type 0 where
  pub status : String
  pub dataset_fingerprint : String

-- What `_MonthFile.close` returns
pub record Closed : Type 0 where
  pub name : String
  pub ticks : ℕ
  pub bytes : ℕ
  pub sha256 : String
  pub first_server_time : String
  pub last_server_time : String

-- `_MonthFile`, with the text that it has been given; the text is written when the file is closed.
pub record MonthFile : Type 0 where
  pub name : String
  pub ticks : ℕ
  pub first_wall : String
  pub last_wall : String
  pub text : String

-- manifest["convert"]; the server times are those of the first and the last file.
pub record Conversion (F : Type 0) : Type 0 where
  pub status : String
  pub target : String
  pub conversion_version : String
  pub converted_at : String
  pub server_time : Rule F
  pub dataset_fingerprint : String
  pub tick_count : ℕ
  pub first_server_time : Option String
  pub last_server_time : Option String
  pub first_utc : Option String
  pub last_utc : Option String
  pub files : List Closed

-- The manifest with these of its entries. The last three, which later stages write, are texts here:
-- the code only removes them.
pub record Dataset (F : Type 0) : Type 0 where
  pub manifest : Manifest
  pub validation : Option Validation
  pub convert : Option (Conversion F)
  pub import_result : Option String
  pub mt5_verification : Option String
  pub history_quality : Option String

-- The local variables of the loop.
pub record Converting : Type 0 where
  pub files : List Closed
  pub current : Option MonthFile
  pub current_month : String
  pub previous_wall : ℤ
  pub total : ℕ
  pub first_utc : Option ℤ
  pub last_utc : Option ℤ
  pub formatter : Formatter

abbrev pub nothing_converted : Converting
nothing_converted = record {
  files = [];
  current = none;
  current_month = "";
  previous_wall = negsuc 0;
  total = 0;
  first_utc = none;
  last_utc = none;
  formatter = new_formatter;
}

-- `text[:n]`
abbrev pub prefix : ℕ → String → String
prefix zero s = ""
prefix (suc n) String.[] = ""
prefix (suc n) (String.◌∷◌ c s) = String.◌∷◌ c (prefix n s)

-- `text.replace(".", "-")`
abbrev pub with_dashes : String → String
with_dashes String.[] = ""
with_dashes (String.◌∷◌ c s) =
    let rest = with_dashes s in
    if nat_eq (code c) b'.' then String.◌∷◌ "-" rest else String.◌∷◌ c rest

abbrev pub month_key : String → String
month_key date_text = with_dashes (prefix 7 date_text)

-- `provider` is the name in upper case.
abbrev pub mt5_file_name : (symbol provider month : String) → String
mt5_file_name symbol provider month =
    "ticks_" & (symbol & ("-" & (provider & ("_" & (month & ".csv")))))

abbrev pub new_file : String → MonthFile
new_file name = record {
  name = name;
  ticks = 0;
  first_wall = "";
  last_wall = "";
  text = mt5_header & "\n";
}

-- `_MonthFile.write`
abbrev pub write_line : (date_text time_text line : String) → MonthFile → MonthFile
write_line date_text time_text line f = record {
  name = f.name;
  ticks = f.ticks + 1;
  first_wall = if f.first_wall == "" then date_text & (" " & time_text) else f.first_wall;
  last_wall = date_text & (" " & time_text);
  text = f.text & line;
}

abbrev pub or_first : Option ℤ → ℤ → Option ℤ
or_first none t = some t
or_first (some u) t = some u

abbrev normalize_text : Option Normalized → String
normalize_text none = "-:pending"
normalize_text (some n) = sum_of n.stats & (":" & (if n.empty then "empty" else "complete"))
  where
    sum_of : Option Stats → String
    sum_of none = "-"
    sum_of (some s) = s.sha256

abbrev pub fingerprint_text : List (String × Entry) → String
fingerprint_text [] = ""
fingerprint_text ((id, e) ∷ rest) =
    id & (":" & (normalize_text e.normalize & ("\n" & fingerprint_text rest)))

module _ {F : Type 0} (p : Python F) where
  unfoldable pub dataset_fingerprint : Manifest → String
  dataset_fingerprint m = p.sha256 (p.encode (fingerprint_text m.chunks))

  abbrev pub same_rule : Rule F → Rule F → Bool
  same_rule a b = (a.mode == b.mode) && p.eq a.offset_hours b.offset_hours

  -- The line of a tick in the file.
  abbrev pub mt5_line : (date_text time_text : String) → Tick F → String
  mt5_line date_text time_text t =
      date_text
      & ("\t"
          & (time_text
              & ("\t" & (format_number p t.bid & ("\t" & (format_number p t.ask & "\t\t\n"))))))
