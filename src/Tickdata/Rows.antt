-- ===== src/Tickdata/Rows.antt =====
-- A tick survives its line: what is written in the normalized format is read back.
use Prim.Native.Char.{Char, code}
use text.Mathlib.TextLemmas.{nil-append, cons-append}
use ea_trading_system.Prelude.{
  String, ◌&◌, ◌≡◌, refl, ap, ◌∙◌, false, some, [], ◌∷◌, nat_eq, any, codes, arith,
}
use ea_trading_system.Errors.{ok}
use ea_trading_system.Python.{Python}
use ea_trading_system.Tickdata.Model.{
  Tick, split_comma, format_number, format_normalized_row, tick_of_parts, parse_normalized_row,
}

abbrev pub CommaFree : String → Type 0
CommaFree s = any (λ c. nat_eq c b',') (codes s) ≡ false

not_comma :
    (c : Char) (s : String)
    → CommaFree (String.◌∷◌ c s)
    → (nat_eq (code c) b',' ≡ false) × CommaFree s
not_comma c s free = ground arith

split_comma-last : (s : String) → CommaFree s → split_comma s ≡ s ∷ []
unfolding split_comma
split_comma-last String.[] free = refl
split_comma-last (String.◌∷◌ c s) free =
    let (other, rest_free) = not_comma c s free in rw (other, split_comma-last s rest_free)

split_comma-comma : (rest : String) → split_comma ("," & rest) ≡ "" ∷ split_comma rest
unfolding split_comma
split_comma-comma rest =
    ap split_comma (cons-append "," "" rest ∙ ap (String.◌∷◌ ",") (nil-append rest))

split_comma-cell :
    (s rest : String) → CommaFree s → split_comma (s & ("," & rest)) ≡ s ∷ split_comma rest
unfolding split_comma
split_comma-cell String.[] rest free = rw nil-append (split_comma-comma rest)
split_comma-cell (String.◌∷◌ c s) rest free =
    let (other, rest_free) = not_comma c s free in
    rw (cons-append c s ("," & rest), other, split_comma-cell s rest rest_free)

module _ {F : Type 0} (p : Python F) where
  -- The number is read back from its text, which has no comma.
  abbrev pub IsReadable : F → Type 0
  IsReadable x = CommaFree (format_number p x) × (p.float (format_number p x) ≡ some x)

  -- A tick whose numbers are read back from their texts is read back from its line.
  pub parse-format_row :
      (t : Tick F)
      → CommaFree (p.show_int t.timestamp_ms)
      → p.int (p.show_int t.timestamp_ms) ≡ some t.timestamp_ms
      → IsReadable t.bid
      → IsReadable t.ask
      → IsReadable t.bid_volume
      → IsReadable t.ask_volume
      → parse_normalized_row p (format_normalized_row p t) ≡ ok t
  unfolding parse_normalized_row format_normalized_row
  parse-format_row t free int (b_free, b) (a_free, a) (bv_free, bv) (av_free, av) =
      ap (tick_of_parts p) cells ∙ rw (int, b, a, bv, av)
    where
      cells :
          split_comma (format_normalized_row p t)
          ≡ p.show_int t.timestamp_ms
            ∷ format_number p t.bid
            ∷ format_number p t.ask
            ∷ format_number p t.bid_volume
            ∷ format_number p t.ask_volume
            ∷ []
      cells = rw (
        split_comma-cell _ _ free,
        split_comma-cell _ _ b_free,
        split_comma-cell _ _ a_free,
        split_comma-cell _ _ bv_free,
        split_comma-last _ av_free,
      )
