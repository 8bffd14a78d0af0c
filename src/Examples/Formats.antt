-- ===== src/Examples/Formats.antt =====
-- fpp_analysis/src/semantics/format.rs: the theorems on format strings at concrete formats.
use fpp_tools.Prelude.{ℕ, ◌≡◌, ◌≢◌, refl, List, [], ◌∷◌, some, ok}
use fpp_tools.Format.Syntax.{Field, decimal, fixed, ParsedFormat, Span}
use fpp_tools.Format.Parser.{ParseError, parse_all_input, out_of_fuel, illegal_character}
use fpp_tools.Format.Print.{locate, parse_all_input-print}
use fpp_tools.Format.Printer.{print}
use fpp_tools.Format.Total.{parse_all_input_ends}

abbrev nowhere : Span
nowhere = record { start = 0; end = 0 }

-- `{{{d} x{.3f}`: the text `{`, an integer field, the text ` x` and a rational field.
abbrev sample : ParsedFormat
sample = record {
  prefix = b'{' ∷ [];
  fields =
      record { field = Field.integer decimal; span = nowhere; suffix = b' ' ∷ b'x' ∷ [] }
      ∷ record { field = Field.rational (some (b'3' ∷ [])) fixed; span = nowhere; suffix = [] }
      ∷ [];
}

parse_all_input-print_example : parse_all_input (print sample) ≡ ok (locate sample)
parse_all_input-print_example = parse_all_input-print sample (tt, ((tt, (refl, tt)), tt))

-- A closing brace on its own.
abbrev stray_brace : List ℕ
stray_brace = b'a' ∷ b'}' ∷ []

abbrev stray_error : ParseError
stray_error = record { msg = illegal_character; at = 1 }

parse_all_input_ends_example : illegal_character ≢ out_of_fuel
unfolding parse_all_input
parse_all_input_ends_example = parse_all_input_ends stray_brace stray_error refl
