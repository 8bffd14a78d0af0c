-- ===== src/Lexer/Next.antt =====
-- fpp_lexer/src/lexer.rs: `finish_ident`, the iterator's `next`, and the run over a text.
use fpp_tools.Prelude.{
  ℕ, zero, suc, ◌-◌, ltb, Bool, List, [], ◌∷◌, Option, none, some, if◌then◌else◌, length,
}
use fpp_tools.Lexer.Chars.{len_utf8}
use fpp_tools.Lexer.Keywords.Search.{get}
use fpp_tools.Lexer.Token.{TokenKind, eof, identifier, keyword, Token}
use fpp_tools.Lexer.Cursor.{Lexer, new, reset_token}
use fpp_tools.Lexer.Fetch.{fetch_token}

-- The text from one byte offset to another: none where an offset is within a character or past the
-- end, where the source's slice panics.
unfoldable pub split_bytes : ℕ → List ℕ → Option (List ℕ × List ℕ)
unfolding len_utf8
split_bytes zero cs = some ([], cs)
split_bytes (suc n) [] = none
split_bytes (suc n) (c ∷ cs) =
    let rest = split_bytes (suc n - len_utf8 c) cs in
    if ltb (suc n) (len_utf8 c)
    then none
    else (elim rest [ none ↦ none | some (front, back) ↦ some (c ∷ front, back) ])

unfoldable pub slice : List ℕ → ℕ → ℕ → Option (List ℕ)
unfolding split_bytes
slice text low high = elim (split_bytes low text) [
  | none ↦ none
  | some (front, back) ↦ (elim (split_bytes (high - low) back) [
    | none ↦ none
    | some (mid, rest) ↦ some mid
  ])
]

unfoldable pub finish_ident : Lexer → Option TokenKind
unfolding slice get
finish_ident s =
    if s.reserved_word then some identifier else (elim (slice s.content s.offset s.pos) [
      | none ↦ none
      | some text ↦ (elim (get text) [ none ↦ some identifier | some k ↦ some (keyword k) ])
    ])

-- What a call of `next` does.
pub data Step : Type 0 where
  yielded : Token → Lexer → Step
  finished : Lexer → Step
  panicked : Step

abbrev pub yield_token : TokenKind → Lexer → Step
yield_token kind s = yielded (record { kind = kind; len = s.pos - s.offset }) s

unfoldable pub finish_token : TokenKind → Lexer → Step
unfolding finish_ident
finish_token eof s = finished s
finish_token identifier s = elim (finish_ident s) [
  | none ↦ panicked
  | some kind ↦ yield_token kind s
]
finish_token kind s = yield_token kind s

module _ (is_xid_continue : ℕ → Bool) where
  unfoldable pub next : Lexer → Step
  unfolding reset_token fetch_token finish_token
  next s = let (kind, t) = fetch_token is_xid_continue (reset_token s) in finish_token kind t

  -- The run of the iterator until it ends, on fuel: none if it panics or does not end.
  unfoldable pub run : ℕ → Lexer → Option (List Token × Lexer)
  unfolding next
  run zero s = none
  run (suc fuel) s = elim (next s) [
    | panicked ↦ none
    | finished t ↦ some ([], t)
    | yielded token t ↦ (elim (run fuel t) [
      | none ↦ none
      | some (tokens, u) ↦ some (token ∷ tokens, u)
    ])
  ]

  -- All tokens of a text, each of which takes a character at least, and the state at the end.
  unfoldable pub tokens : List ℕ → Option (List Token × Lexer)
  unfolding run new
  tokens content = run (suc (length content)) (new content)
