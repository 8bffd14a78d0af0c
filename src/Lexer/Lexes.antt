-- ===== src/Lexer/Lexes.antt =====
-- fpp_lexer/src/lexer.rs: what a step within a token does to the state. The children have the steps of
-- the functions that read a token.
pub mod Loops
pub mod Fetched
use fpp_tools.Prelude.{
  append_assoc, append-nil, ℕ, zero, suc, ◌+◌, ◌-◌, ◌==◌, ◌≤◌, ◌<◌, ◌≡◌, ◌⊎◌, inl, inr, refl, sym,
  ap, subst, ◌∙◌, Bool, true, false, not, ◌&&◌, List, [], ◌∷◌, ◌++◌, Option, none, some, if◌then◌else◌,
  All, length, arith,
}
use fpp_tools.Lexer.Chars.{cr, lf, len_utf8, len_utf8-positive, byte_len, byte_len-append}
use fpp_tools.Lexer.Cursor.{
  Read, first, is_at_end, Lexer, LexerError, LexerMessage, error_at, error, starts_with_lf, tail, read_char, bump,
  skip, eat, eat_while,
}
use fpp_tools.Lexer.Skips.{chars-cases, skip-end, skip-char, skip-reserved, bump-end, skip-shorter, skip-le, and_not, not_at_end, bump-some, first-space}

-- An error that covers a byte at least, from `low` on and below `high`.
pub record Inside (low high : ℕ) (e : LexerError) : Type 0 where
  pub from : low ≤ e.at
  pub some_byte : 1 ≤ e.size
  pub until : e.at + e.size ≤ high

-- The step from `s` to `t` reads some text and adds errors that lie in the token or in what follows.
pub record Lexes (s t : Lexer) : Type 0 where
  pub text : List ℕ
  pub reads : s.chars ≡ text ++ t.chars
  pub counts : t.pos ≡ s.pos + byte_len text
  pub keeps_offset : t.offset ≡ s.offset
  pub keeps_content : t.content ≡ s.content
  pub keeps_going : t.stalled ≡ s.stalled
  pub found : List LexerError
  pub appends : t.errors ≡ s.errors ++ found
  pub inside : All (Inside s.offset (s.pos + byte_len s.chars)) found

pub All-append :
    {A : Type 0} (P : A → Type 0) (xs ys : List A) → All P xs → All P ys → All P (xs ++ ys)
All-append P [] ys h k = k
All-append P (x ∷ xs) ys h k = (h.0, All-append P xs ys h.1 k)

pub All-Inside-widen :
    (low high wide : ℕ) (es : List LexerError)
    → high ≤ wide
    → All (Inside low high) es
    → All (Inside 0 wide) es
All-Inside-widen low high wide [] h k = tt
All-Inside-widen low high wide (e ∷ es) h k = (
  record { from = omega arith; some_byte = k.0.some_byte; until = omega (arith, k.0.until) },
  All-Inside-widen low high wide es h k.1,
)

pub Lexes-total : {s t : Lexer} → Lexes s t → t.pos + byte_len t.chars ≡ s.pos + byte_len s.chars
Lexes-total h =
    let bytes = ap byte_len h.reads in omega (arith, h.counts, bytes, byte_len-append h.text _)

pub Lexes-refl : (s : Lexer) → Lexes s s
unfolding byte_len
Lexes-refl s = record {
  text = [];
  reads = refl;
  counts = omega arith;
  keeps_offset = refl;
  keeps_content = refl;
  keeps_going = refl;
  found = [];
  appends = sym (append-nil s.errors);
  inside = tt;
}

-- The fields that no theorem on the text and the errors reads.
pub Lexes-retag :
    (s : Lexer) (indent : ℕ) (reserved : Bool)
    → Lexes s (record s { indent = indent; reserved_word = reserved })
unfolding byte_len
Lexes-retag s indent reserved = record {
  text = [];
  reads = refl;
  counts = omega arith;
  keeps_offset = refl;
  keeps_content = refl;
  keeps_going = refl;
  found = [];
  appends = sym (append-nil s.errors);
  inside = tt;
}

pub Lexes-trans : {s t u : Lexer} → Lexes s t → Lexes t u → Lexes s u
Lexes-trans {s} {t} {u} h k = record {
  text = h.text ++ k.text;
  reads = h.reads ∙ ap (λ x. h.text ++ x) k.reads ∙ sym (append_assoc h.text k.text u.chars);
  counts = omega (arith, h.counts, k.counts, byte_len-append h.text k.text);
  keeps_offset = k.keeps_offset ∙ h.keeps_offset;
  keeps_content = k.keeps_content ∙ h.keeps_content;
  keeps_going = k.keeps_going ∙ h.keeps_going;
  found = h.found ++ k.found;
  appends = k.appends ∙ ap (λ x. x ++ k.found) h.appends ∙ append_assoc s.errors h.found k.found;
  inside = All-append (Inside s.offset (s.pos + byte_len s.chars)) h.found k.found h.inside (
      subst (λ n. All (Inside n (s.pos + byte_len s.chars)) k.found) h.keeps_offset
        (subst (λ n. All (Inside t.offset n) k.found) (Lexes-total h) k.inside));
}

pub Lexes-error_at :
    (s : Lexer) (at size : ℕ) (msg : LexerMessage)
    → s.offset ≤ at
    → 1 ≤ size
    → at + size ≤ s.pos + byte_len s.chars
    → Lexes s (error_at at size msg s)
unfolding error_at byte_len
Lexes-error_at s at size msg from some_byte until = record {
  text = [];
  reads = refl;
  counts = omega arith;
  keeps_offset = refl;
  keeps_content = refl;
  keeps_going = refl;
  found = record { at = at; size = size; msg = msg } ∷ [];
  appends = refl;
  inside = (record { from = from; some_byte = some_byte; until = until }, tt);
}

-- The error at the current token, once that has a character.
pub Lexes-error : (s : Lexer) (msg : LexerMessage) → s.offset < s.pos → Lexes s (error msg s)
unfolding error
Lexes-error s msg h =
    Lexes-error_at s s.offset (s.pos - s.offset) msg (omega arith) (omega arith) (omega arith)

-- The token has a character, and this stays so.
pub Lexes-started : {s t : Lexer} → Lexes s t → s.offset < s.pos → t.offset < t.pos
Lexes-started h k = omega (arith, h.counts, h.keeps_offset)

pub Lexes-if :
    {s : Lexer} (b : Bool) {x y : Lexer} → Lexes s x → Lexes s y → Lexes s (if b then x else y)
Lexes-if true h k = h
Lexes-if false h k = k

pub Lexes-if-eq :
    {s : Lexer} (b : Bool) {x y : Lexer}
    → (b ≡ true → Lexes s x)
    → (b ≡ false → Lexes s y)
    → Lexes s (if b then x else y)
Lexes-if-eq true h k = h refl
Lexes-if-eq false h k = k refl

-- The text that `read_char` takes.
read_text : ℕ → List ℕ → List ℕ
read_text c cs = if c == cr && starts_with_lf cs then c ∷ lf ∷ [] else c ∷ []

read_text-append : (c : ℕ) (cs : List ℕ) → c ∷ cs ≡ read_text c cs ++ (read_char c cs).rest
unfolding read_text read_char
read_text-append c [] = ground arith
read_text-append c (d ∷ cs) = ground arith

size_if :
    (b : Bool) (r r' : Read) (x x' : List ℕ)
    → r.size ≡ byte_len x
    → r'.size ≡ byte_len x'
    → (if b then r else r').size ≡ byte_len (if b then x else x')
size_if true r r' x x' h h' = h
size_if false r r' x x' h h' = h'

read_text-byte_len : (c : ℕ) (cs : List ℕ) → (read_char c cs).size ≡ byte_len (read_text c cs)
unfolding read_text read_char byte_len
read_text-byte_len c cs = size_if (c == cr && starts_with_lf cs) _ _ _ _ (omega arith) (omega arith)

size-positive : (c : ℕ) (cs : List ℕ) → 1 ≤ (read_char c cs).size
unfolding read_char
size-positive c cs = ground (arith, len_utf8-positive c)

-- A character that is there is read.
pub skip-advances : (s : Lexer) (c : ℕ) (cs : List ℕ) → s.chars ≡ c ∷ cs → s.pos < (skip s).pos
skip-advances s c cs e = rw (skip-char s c cs e) (omega (arith, size-positive c cs))

pub Lexes-char :
    (s : Lexer) (c : ℕ) (cs : List ℕ)
    → s.chars ≡ c ∷ cs
    → Lexes s (record s { pos = s.pos + (read_char c cs).size; chars = (read_char c cs).rest })
Lexes-char s c cs e = record {
  text = read_text c cs;
  reads = e ∙ read_text-append c cs;
  counts = omega (arith, read_text-byte_len c cs);
  keeps_offset = refl;
  keeps_content = refl;
  keeps_going = refl;
  found = [];
  appends = sym (append-nil s.errors);
  inside = tt;
}

pub Lexes-skip : (s : Lexer) → Lexes s (skip s)
Lexes-skip s = elim (chars-cases s.chars) [
  | inl e ↦ subst (Lexes s) (sym (skip-end s e)) (Lexes-refl s)
  | inr (c, (cs, e)) ↦ subst (Lexes s) (sym (skip-char s c cs e)) (Lexes-char s c cs e)
]

Lexes-eat : (n : ℕ) (p : ℕ → Bool) (s : Lexer) → length s.chars < n → Lexes s (eat n p s)
unfolding eat
Lexes-eat zero p s enough = absurd (omega arith)
Lexes-eat (suc n) p s enough = Lexes-if-eq (p (first s) && not (is_at_end s))
    (λ e.
      let shorter = skip-shorter s (and_not (p (first s)) (is_at_end s) e) in
      Lexes-trans (Lexes-skip s) (Lexes-eat n p (skip s) (omega arith)))
    (λ e. Lexes-refl s)

pub Lexes-eat_while : (p : ℕ → Bool) (s : Lexer) → Lexes s (eat_while p s)
unfolding eat_while
Lexes-eat_while p s = Lexes-eat (suc (length s.chars)) p s (omega arith)
