-- ===== src/Lexer/Token.antt =====
-- fpp_lexer/src/token.rs: the tokens and the names of their kinds.
use fpp_tools.Prelude.{ℕ, List, Option, some}
use fpp_tools.Lexer.Keywords.{KeywordKind}
use fpp_tools.Lexer.Keywords.Table.{codes}
use fpp_tools.Lexer.Keywords.Search.{as_str}

pub data TokenKind : Type 0 where
  eof whitespace comment unknown identifier post_annotation pre_annotation : TokenKind
  literal_float literal_int literal_string : TokenKind
  literal_multiline_string : ℕ → TokenKind
  keyword : KeywordKind → TokenKind
  colon comma dot eol equals left_curly left_square left_paren minus plus : TokenKind
  right_arrow right_curly right_square right_paren semi slash star shift_left shift_right :
      TokenKind

pub record Token : Type 0 where
  pub kind : TokenKind
  pub len : ℕ

-- The `Display` of kinds. That of a keyword fails where `as_str` does.
unfoldable pub display_kind : TokenKind → Option (List ℕ)
unfolding as_str
display_kind eof = some (codes "end of input")
display_kind whitespace = some (codes "<whitespace>")
display_kind unknown = some (codes "<unknown>")
display_kind comment = some (codes "comment")
display_kind identifier = some (codes "identifier")
display_kind post_annotation = some (codes "post-annotation")
display_kind pre_annotation = some (codes "pre-annotation")
display_kind literal_float = some (codes "literal float")
display_kind literal_int = some (codes "literal integer")
display_kind literal_string = some (codes "literal string")
display_kind (literal_multiline_string indent) = some (codes "literal multiline string")
display_kind (keyword k) = as_str k
display_kind colon = some (codes ":")
display_kind comma = some (codes ",")
display_kind dot = some (codes ".")
display_kind eol = some (codes "end of line")
display_kind equals = some (codes "=")
display_kind left_curly = some (codes "{")
display_kind left_square = some (codes "[")
display_kind left_paren = some (codes "(")
display_kind minus = some (codes "-")
display_kind plus = some (codes "+")
display_kind right_arrow = some (codes "->")
display_kind right_curly = some (codes "}")
display_kind right_square = some (codes "]")
display_kind right_paren = some (codes ")")
display_kind semi = some (codes ";")
display_kind slash = some (codes "/")
display_kind star = some (codes "*")
display_kind shift_left = some (codes "<<")
display_kind shift_right = some (codes ">>")
