-- ===== src/Tickdata/Convert/Lines.antt =====
-- convert.py: the loop of `run_convert` over the lines of the chunks.
use ea_trading_system.Prelude.{
  ℤ, ◌+◌, ltb_ℤ, String, ◌&◌, ◌==◌, Bool, true, false, not, Option, none, some, List, [], ◌∷◌, ◌++◌,
  lookup, if◌then◌else◌,
}
use ea_trading_system.Errors.{Result, ok, err, runtime_error, other_error}
use ea_trading_system.Act.{Act, pure, raise, lift, catch, require, ◌>>=◌, ◌>>◌}
use ea_trading_system.Python.{Python}
use ea_trading_system.Tickdata.Chunks.{Chunk}
use ea_trading_system.Tickdata.Model.{Tick, parse_normalized_row}
use ea_trading_system.Tickdata.Times.{Zones, Rule, Formatter, format, utc_ms_to_server_wall_ms}
use ea_trading_system.Tickdata.Store.{Files, Normalized, Manifest, item}
use ea_trading_system.Tickdata.Download.{Store, normalized_path}
use ea_trading_system.Tickdata.Convert.{
  Closed, MonthFile, Converting, nothing_converted, month_key, new_file, write_line, or_first,
  mt5_line,
}

-- `lines` reads the lines of a file after its first.
module _ {F W : Type 0} (p : Python F) (z : Zones) (files : Files W)
    (lines : String → Act W (List String)) (directory : String) (name_of : String → String) where
  abbrev pub path_of : MonthFile → String
  path_of f = directory & ("/" & f.name)

  -- `close`
  unfoldable pub close : MonthFile → Act W Closed
  close f = do
    files.write_text (path_of f & ".part") f.text
    files.replace (path_of f & ".part") (path_of f)
    n ← files.size (path_of f)
    content ← files.read_bytes (path_of f)
    pure (record {
      name = f.name;
      ticks = f.ticks;
      bytes = n;
      sha256 = p.sha256 content;
      first_server_time = f.first_wall;
      last_server_time = f.last_wall;
    })

  abbrev pub close_current : Option MonthFile → Act W (List Closed)
  close_current none = pure []
  close_current (some f) = close f >>= λ d. pure (d ∷ [])

  -- The file of the month, a new one if the month has changed.
  abbrev pub enter_month : Bool → String → Converting → Act W (List Closed × Option MonthFile)
  enter_month true key c = pure (c.files, c.current)
  enter_month false key c =
      close_current c.current >>= λ closed. pure (c.files ++ closed, some (new_file (name_of key)))

  -- `current.write(...)`, which raises AttributeError where there is no file.
  abbrev pub written : Option MonthFile → (date_text time_text line : String) → Result MonthFile
  written none date_text time_text line = err other_error
  written (some f) date_text time_text line = ok (write_line date_text time_text line f)

  abbrev pub advanced :
      Converting → Tick F → ℤ → String → List Closed → MonthFile → Formatter → Converting
  advanced c t wall month closed f formatter = record {
    files = closed;
    current = some f;
    current_month = month;
    previous_wall = wall;
    total = c.total + 1;
    first_utc = or_first c.first_utc t.timestamp_ms;
    last_utc = some t.timestamp_ms;
    formatter = formatter;
  }

  -- A line of the loop. A time that goes back is refused.
  unfoldable pub convert_line : Rule F → String → Converting → Act W Converting
  convert_line rule line c = do
    t ← lift (parse_normalized_row p line)
    wall ← lift (utc_ms_to_server_wall_ms z p rule t.timestamp_ms)
    require (not (ltb_ℤ wall c.previous_wall)) runtime_error
    ((date_text, time_text), formatter) ← pure (format z wall c.formatter)
    (closed, current) ← enter_month (month_key date_text == c.current_month) (month_key date_text) c
    f ← lift (written current date_text time_text (mt5_line p date_text time_text t))
    pure (advanced c t wall (month_key date_text) closed f formatter)

  abbrev pub discard : Option MonthFile → Act W (Unit {0})
  discard none = pure tt
  discard (some f) = files.unlink (path_of f & ".part")

  -- `except BaseException`: the unfinished file is removed.
  abbrev pub guarded : {A : Type 0} → Converting → Act W A → Act W A
  guarded c m = catch m (λ e. discard c.current >> raise e)

  unfoldable pub convert_lines : Rule F → List String → Converting → Act W Converting
  convert_lines rule [] c = pure c
  convert_lines rule (l ∷ ls) c =
      guarded c (convert_line rule l c) >>= λ c'. convert_lines rule ls c'

  -- `status != "complete"` of an entry is continued over.
  abbrev pub lines_of_entry : Option Normalized → String → Act W (List String)
  lines_of_entry none path = pure []
  lines_of_entry (some n) path = if n.empty then pure [] else lines path

  unfoldable pub convert_chunks :
      Rule F → Store F → Manifest → List Chunk → Converting → Act W Converting
  convert_chunks rule s m [] c = pure c
  convert_chunks rule s m (k ∷ ks) c = do
    e ← guarded c (lift (item (lookup k.chunk_id m.chunks)))
    ls ← guarded c (lines_of_entry e.normalize (normalized_path s k.chunk_id))
    c' ← convert_lines rule ls c
    convert_chunks rule s m ks c'

  unfoldable pub convert_all :
      Rule F → Store F → Manifest → List Chunk → Act W (Converting × List Closed)
  convert_all rule s m ks = do
    c ← convert_chunks rule s m ks nothing_converted
    closed ← guarded c (close_current c.current)
    pure (c, c.files ++ closed)
