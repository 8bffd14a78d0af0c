-- ===== src/Lexer/Skips.antt =====
-- fpp_lexer/src/lexer.rs: what `bump` does at a character and at the end of the text.
use fpp_tools.Prelude.{
  ℕ, ◌+◌, ◌==◌, ◌≤◌, ◌<◌, ◌≡◌, refl, ap, subst, Bool, true, false, not, ◌&&◌, ◌||◌, List,
  [], ◌∷◌, ◌⊎◌, none, some, inl, inr, length, arith,
}
use fpp_tools.Lexer.Cursor.{
  Lexer, is_empty_text, is_at_end, read_char, bump, first, skip, peek_chars,
}

pub bump-end : (s : Lexer) → s.chars ≡ [] → (bump s).0 ≡ none
unfolding bump
bump-end s e = rw e refl

pub chars-cases : (xs : List ℕ) → (xs ≡ []) ⊎ ((c : ℕ) × ((cs : List ℕ) × (xs ≡ c ∷ cs)))
chars-cases [] = inl refl
chars-cases (c ∷ cs) = inr (c, (cs, refl))

pub skip-end : (s : Lexer) → s.chars ≡ [] → skip s ≡ s
unfolding skip bump
skip-end s e = rw e refl

pub skip-char :
    (s : Lexer) (c : ℕ) (cs : List ℕ)
    → s.chars ≡ c ∷ cs
    → skip s ≡ record s { pos = s.pos + (read_char c cs).size; chars = (read_char c cs).rest }
unfolding skip bump
skip-char s c cs e = rw e refl

pub skip-reserved : (s : Lexer) → (skip s).reserved_word ≡ s.reserved_word
skip-reserved s = elim (chars-cases s.chars) [
  | inl e ↦ ap (λ t. t.reserved_word) (skip-end s e)
  | inr (c, (cs, e)) ↦ ap (λ t. t.reserved_word) (skip-char s c cs e)
]

pub read_char-shorter : (c : ℕ) (cs : List ℕ) → length (read_char c cs).rest ≤ length cs
unfolding read_char
read_char-shorter c [] = ground arith
read_char-shorter c (d ∷ cs) = ground arith

-- A character that is there is taken by `skip`.
pub skip-shorter : (s : Lexer) → is_at_end s ≡ false → length (skip s).chars < length s.chars
unfolding is_at_end
skip-shorter s h = elim (chars-cases s.chars) [
  | inl e ↦ absurd cc
  | inr (c, (cs, e)) ↦
      let next = ap (λ t. length t.chars) (skip-char s c cs e) in
      omega (arith, next, ap length e, read_char-shorter c cs)
]

pub and_not : (a b : Bool) → a && not b ≡ true → b ≡ false
and_not a b h = ground arith

pub skip-le : (s : Lexer) → length (skip s).chars ≤ length s.chars
skip-le s = elim (chars-cases s.chars) [
  | inl e ↦ omega (arith, ap (λ t. length t.chars) (skip-end s e))
  | inr (c, (cs, e)) ↦
      let next = ap (λ t. length t.chars) (skip-char s c cs e) in
      omega (arith, next, ap length e, read_char-shorter c cs)
]

pub bump-some : (s : Lexer) (c : ℕ) → (bump s).0 ≡ some c → is_at_end s ≡ false
unfolding is_at_end
bump-some s c h = elim (chars-cases s.chars) [
  | inl e ↦ absurd (let clash = bump-end s e in cc)
  | inr (c, (cs, e)) ↦ ap is_empty_text e
]

pub first-space : (s : Lexer) → (first s == b' ') ≡ true → is_at_end s ≡ false
unfolding first is_at_end peek_chars
first-space s h = elim (chars-cases s.chars) [
  | inl e ↦ absurd (let clash = subst (λ xs. (peek_chars 0 xs == b' ') ≡ true) e h in cc)
  | inr (c, (cs, e)) ↦ ap is_empty_text e
]

pub not_at_end : (a b : Bool) → a || b ≡ false → b ≡ false
not_at_end a b h = ground arith
