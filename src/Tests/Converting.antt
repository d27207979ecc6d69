-- ===== src/Tests/Converting.antt =====
-- A conversion of two ticks of one chunk.
use ea_trading_system.Prelude.{
  ℕ, ◌+◌, ◌+ℤ◌, pos, negsuc, length, ◌≡◌, refl, true, false, Option, none, some, List, [], ◌∷◌,
  String,
}
use ea_trading_system.Errors.{ok}
use ea_trading_system.Act.{Act}
use ea_trading_system.Tickdata.Model.{format_number, parse_normalized_row, split_comma}
use ea_trading_system.Tickdata.Times.{format, offset_ms_at, utc_ms_to_server_wall_ms, utc_ms_to_iso}
use ea_trading_system.Tickdata.Store.{fetched, Manifest, save_manifest, atomic_write_text}
use ea_trading_system.Tickdata.Convert.{
  Validation, Conversion, Dataset, Converting, nothing_converted, dataset_fingerprint,
}
use ea_trading_system.Tickdata.Convert.Lines.{
  close, convert_line, convert_lines, convert_chunks, convert_all,
}
use ea_trading_system.Tickdata.Convert.Run.{convert_anew, run_convert}
use ea_trading_system.Tickdata.Convert.Counted.{IsCounted, AreOrdered, convert_lines-IsCounted}
use ea_trading_system.Tickdata.Convert.Refused.{
  IsValidated, IsConversionOf, run_convert-IsValidated,
}
use ea_trading_system.Tests.World.{p}
use ea_trading_system.Tests.Ticking.{zones, ny_close}
use ea_trading_system.Tests.Downloading.{files, chunk, store}

abbrev two_lines : List String
two_lines = "1000,1.0,1.0,1.0,1.0" ∷ "1000,1.0,1.0,1.0,1.0" ∷ []

abbrev lines : String → Act ℕ (List String)
lines path w = (ok two_lines, w)

abbrev name_of : String → String
name_of month = "ticks.csv"

abbrev row : String
row = "1970.01.01\t00:00:00.000\t1\t1\t\t\n"

abbrev both : Converting
both = record {
  files = [];
  current = some (record {
    name = "ticks.csv";
    ticks = 2;
    first_wall = "1970.01.01 00:00:00.000";
    last_wall = "1970.01.01 00:00:00.000";
    text =
        "<DATE>\t<TIME>\t<BID>\t<ASK>\t<LAST>\t<VOLUME>\n1970.01.01\t00:00:00.000\t1\t1\t\t\n1970.01.01\t00:00:00.000\t1\t1\t\t\n";
  });
  current_month = "1970-01";
  previous_wall = pos 7_201_000;
  total = 2;
  first_utc = some (pos 1_000);
  last_utc = some (pos 1_000);
  formatter = record { second = pos 7_201; date = "1970.01.01"; time = "00:00:00" };
}

converted :
    convert_lines p zones files lines "mt5" name_of ny_close two_lines nothing_converted 0
    ≡ (ok both, 0)
unfolding convert_lines convert_line parse_normalized_row split_comma utc_ms_to_server_wall_ms
    offset_ms_at format format_number close ◌+ℤ◌
converted = refl

convert_lines-IsCounted_example :
    (2 ≡ 0 + length two_lines)
    × IsCounted both
    × AreOrdered p zones files lines "mt5" name_of ny_close (negsuc 0) two_lines (pos 7_201_000)
convert_lines-IsCounted_example =
    convert_lines-IsCounted p zones files lines "mt5" name_of ny_close two_lines nothing_converted 0
      both 0 refl converted

abbrev manifest_at : Option String → Manifest
manifest_at updated = record {
  chunks =
      (
        "day",
        record {
          start = "1970-01-01";
          end_time = "1970-01-02";
          download = fetched (record {
            empty = false;
            attempts = 1;
            downloaded_at = "1970-01-01T00:00:00Z";
            raw_file = "day.csv";
            bytes = 2;
            sha256 = "body-hash";
          });
          normalize = some (record {
            empty = false;
            raw_sha256 = "body-hash";
            normalizer_version = "1";
            normalized_at = "1970-01-01T00:00:00Z";
            stats = some (record {
              file = "day.csv";
              bytes = 2;
              sha256 = "body-hash";
              ticks_in = 2;
              ticks_out = 2;
              duplicates_removed = 0;
              rejected = [];
            });
          });
        },
      )
      ∷ [];
  normalized_format = some "tickdata-csv-v1";
  normalizer_version = some "1";
  updated_at = updated;
}

abbrev validation : Validation
validation = record { status = "PASS"; dataset_fingerprint = "body-hash" }

abbrev dataset : Dataset ℕ
dataset = record {
  manifest = manifest_at none;
  validation = some validation;
  convert = none;
  import_result = some "imported";
  mt5_verification = none;
  history_quality = none;
}

abbrev conversion : Conversion ℕ
conversion = record {
  status = "complete";
  target = "mt5-tab";
  conversion_version = "1";
  converted_at = "1970-01-01T00:00:00Z";
  server_time = ny_close;
  dataset_fingerprint = "body-hash";
  tick_count = 2;
  first_server_time = some "1970.01.01 00:00:00.000";
  last_server_time = some "1970.01.01 00:00:00.000";
  first_utc = some "1970-01-01T00:00:00.000Z";
  last_utc = some "1970-01-01T00:00:00.000Z";
  files =
      record {
        name = "ticks.csv";
        ticks = 2;
        bytes = 2;
        sha256 = "body-hash";
        first_server_time = "1970.01.01 00:00:00.000";
        last_server_time = "1970.01.01 00:00:00.000";
      }
      ∷ [];
}

abbrev kept : Dataset ℕ
kept = record {
  manifest = manifest_at (some "1970-01-01T00:00:00Z");
  validation = some validation;
  convert = some conversion;
  import_result = none;
  mt5_verification = none;
  history_quality = none;
}

abbrev no_files : Act ℕ (List String)
no_files w = (ok [], w)

run :
    run_convert p zones files lines "mt5" name_of
      (λ ds. "{}")
      no_files
      ny_close
      store
      true
      (chunk ∷ [])
      dataset
      0
    ≡ (ok (kept, conversion), 0)
unfolding run_convert convert_anew convert_all convert_chunks convert_lines convert_line
    parse_normalized_row split_comma utc_ms_to_server_wall_ms offset_ms_at utc_ms_to_iso format
    format_number close dataset_fingerprint save_manifest atomic_write_text ◌+ℤ◌
run = refl

run_convert-IsValidated_example :
    IsValidated (some validation) (dataset_fingerprint p dataset.manifest)
    × IsConversionOf p zones files lines "mt5" name_of dataset kept conversion
run_convert-IsValidated_example =
    run_convert-IsValidated p zones files lines "mt5" name_of (λ ds. "{}") no_files ny_close store
      true (chunk ∷ []) dataset 0 kept conversion 0 run
