-- ===== src/Lexer/Cursor.antt =====
-- fpp_lexer/src/lexer.rs: the state of the lexer, and how it reads and looks at characters.
use fpp_tools.Prelude.{
  ℕ, zero, suc, ◌+◌, ◌-◌, ◌==◌, Bool, true, false, not, ◌&&◌, List, [], ◌∷◌, ◌++◌, Option, none,
  some, if◌then◌else◌, length,
}
use fpp_tools.Lexer.Chars.{lf, cr, len_utf8}

-- What the message of an error says. A text that the source does not print is not kept.
pub data LexerMessage : Type 0 where
  invalid_dollar invalid_number expected_line_continuation lone_less lone_greater : LexerMessage
  missing_closing_quote unclosed_multiline_string : LexerMessage
  -- The character, and whether the notes on tab characters follow.
  unicode_value : ℕ → Bool → LexerMessage

pub record LexerError : Type 0 where
  pub at : ℕ
  pub size : ℕ
  pub msg : LexerMessage

-- `stalled` has no counterpart in the source: a loop sets it where its rounds go on beyond the fuel.
pub record Lexer : Type 0 where
  pub pos : ℕ
  pub offset : ℕ
  pub indent : ℕ
  pub reserved_word : Bool
  pub content : List ℕ
  pub chars : List ℕ
  pub errors : List LexerError
  pub stalled : Bool

unfoldable pub new : List ℕ → Lexer
new content = record {
  pos = 0;
  offset = 0;
  indent = 0;
  reserved_word = false;
  content = content;
  chars = content;
  errors = [];
  stalled = false;
}

unfoldable pub error_at : ℕ → ℕ → LexerMessage → Lexer → Lexer
error_at at size msg s = record s {
  errors = s.errors ++ record { at = at; size = size; msg = msg } ∷ [];
}

unfoldable pub error : LexerMessage → Lexer → Lexer
unfolding error_at
error msg s = error_at s.offset (s.pos - s.offset) msg s

abbrev pub is_empty_text : List ℕ → Bool
is_empty_text [] = true
is_empty_text (c ∷ cs) = false

unfoldable pub is_at_end : Lexer → Bool
is_at_end s = is_empty_text s.chars

abbrev pub starts_with_lf : List ℕ → Bool
starts_with_lf [] = false
starts_with_lf (c ∷ cs) = c == lf

abbrev pub tail : List ℕ → List ℕ
tail [] = []
tail (c ∷ cs) = cs

-- The character at the front and what follows it, a CR LF pair being read as an LF.
pub record Read : Type 0 where
  pub char : ℕ
  pub size : ℕ
  pub rest : List ℕ

unfoldable pub read_char : ℕ → List ℕ → Read
unfolding len_utf8
read_char c cs =
    if c == cr && starts_with_lf cs
    then record { char = lf; size = len_utf8 c + len_utf8 lf; rest = tail cs }
    else record { char = c; size = len_utf8 c; rest = cs }

-- The character that `bump` returns, and the state behind it.
unfoldable pub bump : Lexer → Option ℕ × Lexer
unfolding read_char
bump s = elim s.chars [
  | [] ↦ (none, s)
  | c ∷ cs ↦
      let r = read_char c cs in (some r.char, record s { pos = s.pos + r.size; chars = r.rest })
]

-- `peek_char(n)`, the character at the end of the input being 0.
unfoldable pub peek_chars : ℕ → List ℕ → ℕ
unfolding read_char
peek_chars n [] = 0
peek_chars zero (c ∷ cs) = (read_char c cs).char
peek_chars (suc n) (c ∷ cs) = peek_chars n (read_char c cs).rest

unfoldable pub first : Lexer → ℕ
unfolding peek_chars
first s = peek_chars 0 s.chars

unfoldable pub second : Lexer → ℕ
unfolding peek_chars
second s = peek_chars 1 s.chars

unfoldable pub third : Lexer → ℕ
unfolding peek_chars
third s = peek_chars 2 s.chars

unfoldable pub reset_token : Lexer → Lexer
reset_token s = record s { offset = s.pos; indent = 0; reserved_word = false }

-- A call of `bump` whose character is not used.
unfoldable pub skip : Lexer → Lexer
unfolding bump
skip s = (bump s).1

-- The loop goes on, but the fuel does not.
unfoldable pub stall : Lexer → Lexer
stall s = record s { stalled = true }

-- The loop of `eat_while`; each round reads a character at least, but for the last.
unfoldable pub eat : ℕ → (ℕ → Bool) → Lexer → Lexer
unfolding first is_at_end skip stall
eat zero p s = stall s
eat (suc fuel) p s =
    let rest = eat fuel p (skip s) in if p (first s) && not (is_at_end s) then rest else s

unfoldable pub eat_while : (ℕ → Bool) → Lexer → Lexer
unfolding eat
eat_while p s = eat (suc (length s.chars)) p s
