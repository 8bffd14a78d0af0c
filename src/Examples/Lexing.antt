-- ===== src/Examples/Lexing.antt =====
-- The lexer at concrete texts.
use fpp_tools.Prelude.{ℕ, ◌≡◌, ◌↔◌, Bool, false, List, some, All, leb, ◌&&◌}
use fpp_tools.Lexer.Chars.{byte_len}
use fpp_tools.Lexer.Keywords.{topology_keyword}
use fpp_tools.Lexer.Keywords.Table.{codes}
use fpp_tools.Lexer.Keywords.Search.{as_str, get, get_iff}
use fpp_tools.Lexer.Token.{Token}
use fpp_tools.Lexer.Cursor.{Lexer}
use fpp_tools.Lexer.Next.{tokens}
use fpp_tools.Lexer.Lexes.{Inside}
use fpp_tools.Lexer.Follows.{Spelled, Tiles}
use fpp_tools.Lexer.Tiles.{tokens-Tiles, tokens-Inside, loops_end}

-- A table of the small ASCII letters only.
abbrev ascii_letter : ℕ → Bool
ascii_letter c = leb b'a' c && leb c b'z'

abbrev constant_text : List ℕ
constant_text = codes "constant a = 0x1F + $type # c\r\n\"\"\"\n  x\n  \"\"\""

abbrev errors_text : List ℕ
errors_text = codes "a < 1.5x \"open"

get_iff_example :
    ((text : List ℕ) → (get text ≡ some topology_keyword) ↔ (as_str topology_keyword ≡ some text))
    × ((t : List ℕ) × (as_str topology_keyword ≡ some t))
get_iff_example = get_iff topology_keyword

tokens-Tiles_example :
    (found : List Token) × ((end : Lexer) × (tokens ascii_letter constant_text ≡ some (found, end))
      × Tiles Spelled found constant_text)
tokens-Tiles_example = tokens-Tiles ascii_letter constant_text

-- Three errors: a lone `<`, the letter behind the number, and the string that is not closed.
abbrev errors_run : List Token × Lexer
errors_run = let (found, (end, _, _)) = tokens-Tiles ascii_letter errors_text in (found, end)

tokens-Inside_example : All (Inside 0 (byte_len errors_text)) errors_run.1.errors
tokens-Inside_example =
    tokens-Inside ascii_letter errors_text errors_run.0 errors_run.1
      (tokens-Tiles ascii_letter errors_text).1.1

loops_end_example :
    (found : List Token)
    × ((end : Lexer) × (tokens ascii_letter errors_text ≡ some (found, end))
      × (end.stalled ≡ false))
loops_end_example = loops_end ascii_letter errors_text
