-- ===== src/Lexer/Slices.antt =====
-- fpp_lexer/src/lexer.rs: the slice of the content that `finish_ident` takes, and the kinds that the
-- arms of `fetch_token` give.
use fpp_tools.Prelude.{
  ℕ, zero, suc, ◌+◌, ◌-◌, ◌==◌, ◌≤◌, ◌≡◌, ◌↔◌, refl, subst, Bool, true, false, List, [], ◌∷◌, ◌++◌,
  none, some, if◌then◌else◌, arith, Bool-cases, Option-cases, inl, inr,
}
use fpp_tools.Lexer.Chars.{
  lf, within, is_digit_of, is_identifier_first, len_utf8, len_utf8-positive, byte_len,
}
use fpp_tools.Lexer.Keywords.{KeywordKind}
use fpp_tools.Lexer.Token.{TokenKind, keyword, identifier, eof, whitespace}
use fpp_tools.Lexer.Cursor.{Lexer, error, invalid_number, first, skip}
use fpp_tools.Lexer.Scan.{
  fetch_ident_rest, fetch_fraction, fetch_number, quote, fetch_string_lit_multi,
  fetch_string_lit_single,
}
use fpp_tools.Lexer.Fetch.{
  fetch_reserved, fetch_continuation, fetch_multi, fetch_string, fetch_annotation, fetch_unknown,
  symbol, fetch_symbol, fetch_zero, fetch_dot, fetch_from,
}
use fpp_tools.Lexer.Next.{split_bytes, slice, yield_token, finish_token, finish_ident}
use fpp_tools.Lexer.Keywords.Search.{get}

split_bytes-cons :
    (n c : ℕ) (cs front back : List ℕ)
    → 1 ≤ n
    → len_utf8 c ≤ n
    → split_bytes (n - len_utf8 c) cs ≡ some (front, back)
    → split_bytes n (c ∷ cs) ≡ some (c ∷ front, back)
unfolding split_bytes
split_bytes-cons zero c cs front back h k e = absurd (omega arith)
split_bytes-cons (suc n) c cs front back h k e = ground arith

split_bytes-append : (xs ys : List ℕ) → split_bytes (byte_len xs) (xs ++ ys) ≡ some (xs, ys)
unfolding split_bytes byte_len
split_bytes-append [] ys = refl
split_bytes-append (c ∷ xs) ys =
    split_bytes-cons (len_utf8 c + byte_len xs) c (xs ++ ys) xs ys
      (omega (arith, len_utf8-positive c)) (omega arith)
      (subst (λ n. split_bytes n (xs ++ ys) ≡ some (xs, ys)) (omega arith)
        (split_bytes-append xs ys))

-- A slice between the ends of characters does not panic.
pub slice-append :
    (before text rest : List ℕ)
    → slice (before ++ (text ++ rest)) (byte_len before) (byte_len before + byte_len text)
      ≡ some text
unfolding slice
slice-append before text rest =
    rw (slice, split_bytes-append before (text ++ rest))
      (let length_left : byte_len before + byte_len text - byte_len before ≡ byte_len text =
          omega arith in
        rw (length_left, split_bytes-append text rest) refl)

unfoldable pub is_raw : TokenKind → Bool
is_raw eof = false
is_raw (keyword k) = false
is_raw kind = true

symbol-raw : (c : ℕ) (kind : TokenKind) → symbol c ≡ some kind → is_raw kind ≡ true
unfolding symbol is_raw
symbol-raw c kind h = ground arith

fetch_symbol-raw : (c : ℕ) (s : Lexer) → is_raw (fetch_symbol c s).0 ≡ true
unfolding fetch_symbol fetch_unknown is_raw
fetch_symbol-raw c s = ground (arith, symbol-raw c)

fetch_reserved-raw : (s : Lexer) → is_raw (fetch_reserved s).0 ≡ true
unfolding fetch_reserved fetch_ident_rest is_raw
fetch_reserved-raw s = ground arith

fetch_string-raw : (s : Lexer) → is_raw (fetch_string s).0 ≡ true
unfolding fetch_string fetch_multi fetch_string_lit_multi fetch_string_lit_single is_raw
fetch_string-raw s = ground arith

fetch_annotation-raw : (s : Lexer) → is_raw (fetch_annotation s).0 ≡ true
unfolding fetch_annotation is_raw
fetch_annotation-raw s = ground arith

fetch_number-raw : (x : ℕ → Bool) (base : ℕ) (s : Lexer) → is_raw (fetch_number x base s).0 ≡ true
unfolding fetch_number fetch_fraction is_raw
fetch_number-raw x base s = ground arith

fetch_zero-raw : (x : ℕ → Bool) (s : Lexer) → is_raw (fetch_zero x s).0 ≡ true
unfolding fetch_zero is_raw
fetch_zero-raw x s =
    let hex =
      fetch_number-raw x 16
        (if is_digit_of 16 (first (skip s)) then skip s else error invalid_number (skip s)) in
    let decimal = fetch_number-raw x 10 s in ground (arith, hex, decimal)

fetch_dot-raw : (x : ℕ → Bool) (s : Lexer) → is_raw (fetch_dot x s).0 ≡ true
unfolding fetch_dot fetch_fraction is_raw
fetch_dot-raw x s = ground arith

-- A step whose kind is neither the end nor a keyword.
record IsRaw (x : TokenKind × Lexer) : Type 0 where
  raw : is_raw x.0 ≡ true

IsRaw-if : (b : Bool) {x y : TokenKind × Lexer} → IsRaw x → IsRaw y → IsRaw (if b then x else y)
IsRaw-if true h k = h
IsRaw-if false h k = k

-- No arm gives the end or a keyword.
fetch_from-IsRaw : (x : ℕ → Bool) (c : ℕ) (s : Lexer) → IsRaw (fetch_from x c s)
unfolding fetch_from fetch_ident_rest fetch_continuation is_raw
fetch_from-IsRaw x c s =
    IsRaw-if (c == b' ') (record { raw = refl })
      (IsRaw-if (c == b'$') (record { raw = fetch_reserved-raw s })
        (IsRaw-if (is_identifier_first c) (record { raw = refl })
          (IsRaw-if (c == b'0') (record { raw = fetch_zero-raw x s })
            (IsRaw-if (within b'1' b'9' c) (record { raw = fetch_number-raw x 10 s })
              (IsRaw-if (c == b'\\') (record { raw = refl })
                (IsRaw-if (c == quote) (record { raw = fetch_string-raw s })
                  (IsRaw-if (c == b'.') (record { raw = fetch_dot-raw x s })
                    (IsRaw-if (c == b'#') (record { raw = refl })
                      (IsRaw-if (c == lf) (record { raw = refl })
                        (IsRaw-if (c == b'@') (record { raw = fetch_annotation-raw s })
                          (record { raw = fetch_symbol-raw c s })))))))))))

pub fetch_from-raw : (x : ℕ → Bool) (c : ℕ) (s : Lexer) → is_raw (fetch_from x c s).0 ≡ true
fetch_from-raw x c s = (fetch_from-IsRaw x c s).raw

-- What `finish_token` makes of the kind of an arm. The kind of the token is a keyword exactly where
-- the text is that of an identifier, not reserved, and is a keyword.
pub record FinishedKind (raw : TokenKind) (t : Lexer) (text : List ℕ) : Type 0 where
  pub kind : TokenKind
  pub yields : finish_token raw t ≡ yield_token kind t
  pub keyword_of :
      (k : KeywordKind)
      → (kind ≡ keyword k) ↔ ((raw ≡ identifier) × (t.reserved_word ≡ false) × (get text ≡ some k))

finish_ident-yields :
    (t : Lexer) (kind : TokenKind)
    → finish_ident t ≡ some kind
    → finish_token identifier t ≡ yield_token kind t
unfolding finish_token
finish_ident-yields t kind e = rw (finish_token, e) refl

finish_ident-lookup :
    (t : Lexer) (text : List ℕ)
    → slice t.content t.offset t.pos ≡ some text
    → (t.reserved_word ≡ true → finish_ident t ≡ some identifier)
      × (t.reserved_word ≡ false → get text ≡ none → finish_ident t ≡ some identifier)
      × ((k : KeywordKind)
          → t.reserved_word ≡ false
          → get text ≡ some k
          → finish_ident t ≡ some (keyword k))
unfolding finish_ident
finish_ident-lookup t text e = (λ r. ground arith, λ r g. ground arith, λ k r g. ground arith)

identifier-FinishedKind :
    (t : Lexer) (text : List ℕ)
    → slice t.content t.offset t.pos ≡ some text
    → FinishedKind identifier t text
identifier-FinishedKind t text e =
    let (reserved, plain, found_keyword) = finish_ident-lookup t text e in
    elim (Bool-cases t.reserved_word) [
      | inl r ↦ record {
        kind = identifier;
        yields = finish_ident-yields t identifier (reserved r);
        keyword_of = λ k. (λ e. absurd cc, λ (_, f, _). absurd cc);
      }
      | inr r ↦ (elim (Option-cases (get text)) [
        | inl g ↦ record {
          kind = identifier;
          yields = finish_ident-yields t identifier (plain r g);
          keyword_of = λ k. (λ e. absurd cc, λ (_, _, g'). absurd cc);
        }
        | inr (found, g) ↦ record {
          kind = keyword found;
          yields = finish_ident-yields t (keyword found) (found_keyword found r g);
          keyword_of = λ k. (λ e'. (refl, r, cc), λ (_, _, g'). cc);
        }
      ])
    ]

pub finish_token-FinishedKind :
    (raw : TokenKind) (t : Lexer) (text : List ℕ)
    → is_raw raw ≡ true
    → slice t.content t.offset t.pos ≡ some text
    → FinishedKind raw t text
unfolding finish_token is_raw
finish_token-FinishedKind raw t text h e =
    elim raw as (λ raw. is_raw raw ≡ true → FinishedKind raw t text) [
      | eof ↦ λ h. absurd cc
      | keyword k ↦ λ h. absurd cc
      | identifier ↦ λ h. identifier-FinishedKind t text e
      | whitespace ↦ λ h. record {
        kind = whitespace;
        yields = refl;
        keyword_of = λ k. (λ e. absurd cc, λ (a, _, _). absurd cc);
      }
      | other ↦ λ h. record {
        kind = other;
        yields = refl;
        keyword_of = λ k. (λ e. absurd cc, λ (a, _, _). absurd cc);
      }
    ]
      h
