-- ===== src/Examples/Config.antt =====
-- A configuration file for rust/src/config.rs.
use mie_decoder.Config.Text.{upper}
use mie_decoder.Config.Number.{is_toml_number_literal}
use mie_decoder.Config.Number.Grammar.{IsNumber}
use mie_decoder.Config.Number.Literal.{is_toml_number_literal_iff}
use mie_decoder.Config.Toml.Value.{Std, string, int, bool, parse_value}
use mie_decoder.Config.Toml.Doc.{Entry, strip_comment, parse_toml}
use mie_decoder.Config.Toml.Quoted.{quote, parse_value-quote}
use mie_decoder.Config.Toml.Unique.{Named, Found, parse_toml-Found}
use mie_decoder.Config.Names.{parse_utc_offset}
use mie_decoder.Config.Names.Offset.{parse_utc_offset-format_utc_offset}
use mie_decoder.Config.Settings.{DecoderConfig, default}
use mie_decoder.Config.Sections.{parse_into_config}
use mie_decoder.Config.Sections.InRange.{InRange}
use mie_decoder.Config.Sections.Loaded.{parse_into_config-InRange}
use mie_decoder.Models.Text.{codes, pos, negsuc, format_utc_offset}
use mie_decoder.Common.{
  ℕ, ◌≡◌, refl, ◌↔◌, inr, true, some, List, [], ◌∷◌, ◌++◌, arith, ◌==◌, length, All,
}

-- Floats by the length of their text, and ASCII letters.
abbrev pub std : Std ℕ
std = record {
  parse_f64 = λ s. some (length s);
  i64_as_f64 = λ i. 1;
  is_finite = λ f. true;
  le_zero = λ f. f == 0;
  to_uppercase = upper;
  stack_depth = 64;
}

abbrev file : List ℕ
file = codes "[decode]\nstrict = true # all\n[output]\nyear = 2024\n"

abbrev entries : List (Entry ℕ)
entries =
    (record { section = codes "decode"; key = codes "strict"; value = bool true })
    ∷ (record { section = codes "output"; key = codes "year"; value = int (pos 2024) })
    ∷ []

parse_toml-Found_example : All Named entries × All (Found entries) entries
unfolding parse_toml
parse_toml-Found_example = parse_toml-Found std file entries refl

abbrev loaded : DecoderConfig ℕ
loaded = record default { strict = true; year = some 2024 }

parse_into_config-InRange_example : InRange std loaded
unfolding parse_into_config default
parse_into_config-InRange_example = parse_into_config-InRange std file loaded refl

is_toml_number_literal_iff_example :
    (is_toml_number_literal (codes "-1.5e+3") ≡ true) ↔ IsNumber (codes "-1.5e+3")
is_toml_number_literal_iff_example = is_toml_number_literal_iff (codes "-1.5e+3")

parse_utc_offset-format_utc_offset_example :
    parse_utc_offset (format_utc_offset (negsuc 89)) ≡ inr (negsuc 89)
parse_utc_offset-format_utc_offset_example =
    parse_utc_offset-format_utc_offset (negsuc 89) (omega arith)

parse_value-quote_example :
    parse_value std (strip_comment (quote (codes "a#\"b") ++ b' ' ∷ b'#' ∷ codes "note")) 7
    ≡ inr (string (codes "a#\"b"))
parse_value-quote_example = parse_value-quote std (codes "a#\"b") (codes "note") 7
