-- ===== src/Lexer/Steps.antt =====
-- fpp_lexer/src/lexer.rs: what `next` does at the end of the text and at a character.
use fpp_tools.Prelude.{
  ℕ, zero, suc, ◌==◌, ◌≡◌, refl, sym, ap, subst, ◌∙◌, Bool, true, false, not, ◌&&◌, List, [], ◌∷◌,
  Option, none, some, if◌then◌else◌, length, arith,
}
use fpp_tools.Lexer.Chars.{is_identifier_first, is_identifier_rest}
use fpp_tools.Lexer.Keywords.{KeywordKind, action_keyword}
use fpp_tools.Lexer.Keywords.Search.{as_str}
use fpp_tools.Lexer.Token.{TokenKind, identifier, eof}
use fpp_tools.Lexer.Cursor.{
  Lexer, read_char, bump, skip, eat, eat_while, reset_token, first, is_at_end,
}
use fpp_tools.Lexer.Scan.{fetch_ident_rest}
use fpp_tools.Lexer.Fetch.{fetch_from, fetch_token}
use fpp_tools.Lexer.Next.{finished, finish_token, next}
use fpp_tools.Lexer.Skips.{skip-reserved, bump-end}

pub bump-char :
    (s : Lexer) (c : ℕ) (cs : List ℕ) → s.chars ≡ c ∷ cs → (bump s).0 ≡ some (read_char c cs).char
unfolding bump
bump-char s c cs e = rw e refl

pub fetch_token-lem :
    (x : ℕ → Bool) (s : Lexer) (o : Option ℕ)
    → (bump s).0 ≡ o
    → fetch_token x s ≡ elim o [ none ↦ (eof, s) | some c ↦ fetch_from x c (skip s) ]
unfolding fetch_token
fetch_token-lem x s o e =
    ap
      (λ o. elim o as (λ o. TokenKind × Lexer) [
        | none ↦ (eof, s)
        | some c ↦ fetch_from x c (skip s)
      ])
      e

pub next-lem :
    (x : ℕ → Bool) (s : Lexer) (kind : TokenKind) (t : Lexer)
    → fetch_token x (reset_token s) ≡ (kind, t)
    → next x s ≡ finish_token kind t
unfolding next
next-lem x s kind t e = ap (λ r. finish_token r.0 r.1) e

pub next-end : (x : ℕ → Bool) (s : Lexer) → s.chars ≡ [] → next x s ≡ finished (reset_token s)
unfolding finish_token reset_token
next-end x s e =
    next-lem x s eof (reset_token s)
      (fetch_token-lem x (reset_token s) none (bump-end (reset_token s) e))

eat-reserved : (n : ℕ) (p : ℕ → Bool) (s : Lexer) → (eat n p s).reserved_word ≡ s.reserved_word
unfolding eat
eat-reserved zero p s = refl
eat-reserved (suc n) p s =
    let rest = eat-reserved n p (skip s) in
    let kept = skip-reserved s in
    if_reserved (p (first s) && not (is_at_end s)) (eat n p (skip s)) (rest ∙ kept)
  where
    if_reserved :
        (b : Bool) (t : Lexer)
        → t.reserved_word ≡ s.reserved_word
        → (if b then t else s).reserved_word ≡ s.reserved_word
    if_reserved true t h = h
    if_reserved false t h = refl

first_letter :
    (c : ℕ) → is_identifier_first c ≡ true → ((c == b' ') ≡ false) × ((c == b'$') ≡ false)
unfolding is_identifier_first
first_letter c h = (ground arith, ground arith)

-- A token that starts like an identifier is one, and it is not reserved.
fetch_from-identifier :
    (x : ℕ → Bool) (c : ℕ) (s : Lexer)
    → is_identifier_first c ≡ true
    → fetch_from x c s ≡ fetch_ident_rest s
unfolding fetch_from fetch_ident_rest
fetch_from-identifier x c s h =
    let (no_space, no_dollar) = first_letter c h in rw (no_space, no_dollar, h) refl

-- Each keyword starts like an identifier.
pub as_str-identifier :
    (k : KeywordKind)
    → (c : ℕ) × ((cs : List ℕ) × (as_str k ≡ some (c ∷ cs)) × (is_identifier_first c ≡ true))
unfolding as_str is_identifier_first
as_str-identifier k =
    elim k
      as (λ k.
        (c : ℕ) × ((cs : List ℕ) × (as_str k ≡ some (c ∷ cs)) × (is_identifier_first c ≡ true))) [
          | action_keyword ↦ (_, (_, refl, refl))
          | _ ↦ (_, (_, refl, refl))
        ]

read_char-identifier :
    (c : ℕ) (cs : List ℕ) → is_identifier_first c ≡ true → (read_char c cs).char ≡ c
unfolding read_char is_identifier_first
read_char-identifier c cs h = ground arith

-- The reading of a token that starts like an identifier, from its start.
pub identifier_read :
    (x : ℕ → Bool) (c : ℕ) (cs : List ℕ) (r : Lexer)
    → is_identifier_first c ≡ true
    → r.reserved_word ≡ false
    → let raw = fetch_from x (read_char c cs).char (skip r) in
      (raw.0 ≡ identifier) × (raw.1.reserved_word ≡ false)
unfolding fetch_ident_rest eat_while
identifier_read x c cs r h e =
    let same =
      fetch_from-identifier x (read_char c cs).char (skip r)
        (subst (λ d. is_identifier_first d ≡ true) (sym (read_char-identifier c cs h)) h) in
    let kept = eat-reserved (suc (length (skip r).chars)) is_identifier_rest (skip r) in
    (ap (λ raw. raw.0) same, ap (λ raw. raw.1.reserved_word) same ∙ (kept ∙ (skip-reserved r ∙ e)))
