-- ===== src/Lexer/Chars.antt =====
-- fpp_lexer/src/chars.rs, and the classes of characters of fpp_lexer/src/lexer.rs. A character is its
-- code point.
use fpp_tools.Prelude.{
  ℕ, ◌+◌, ◌-◌, ◌≤◌, leb, ltb, ◌==◌, Bool, true, false, ◌&&◌, ◌||◌, Option, none, some,
  if◌then◌else◌, List, [], ◌∷◌, ◌++◌, ◌≡◌, any, arith,
}

abbrev pub lf : ℕ
lf = 10

abbrev pub cr : ℕ
cr = 13

-- A range of characters, both ends in it.
abbrev pub within : ℕ → ℕ → ℕ → Bool
within low high c = leb low c && leb c high

unfoldable pub is_ascii_digit : ℕ → Bool
is_ascii_digit c = within b'0' b'9' c

unfoldable pub digit_value : ℕ → Option ℕ
digit_value c =
    if within b'0' b'9' c
    then some (c - b'0')
    else if within b'a' b'z' c
    then some (c - b'a' + 10)
    else if within b'A' b'Z' c
    then some (c - b'A' + 10)
    else none

unfoldable pub digit2int : ℕ → ℕ → Option ℕ
unfolding digit_value
digit2int c base = elim (digit_value c) [
  | none ↦ none
  | some num ↦ if ltb num base then some num else none
]

unfoldable pub is_digit_of : ℕ → ℕ → Bool
unfolding digit2int
is_digit_of base c = elim (digit2int c base) [ none ↦ false | some n ↦ true ]

unfoldable pub is_identifier_first : ℕ → Bool
is_identifier_first c = within b'A' b'Z' c || (c == b'_' || within b'a' b'z' c)

unfoldable pub is_identifier_rest : ℕ → Bool
unfolding is_identifier_first
is_identifier_rest c = is_identifier_first c || within b'0' b'9' c

-- The ranges of `is_identifier_ignorable`.
abbrev pub ignorable_ranges : List (ℕ × ℕ)
ignorable_ranges =
    (0x0000, 0x0008)
    ∷ (0x000E, 0x001B)
    ∷ (0x007F, 0x009F)
    ∷ (0x00AD, 0x00AD)
    ∷ (0x0600, 0x0605)
    ∷ (0x061C, 0x061C)
    ∷ (0x06DD, 0x06DD)
    ∷ (0x070F, 0x070F)
    ∷ (0x0890, 0x0891)
    ∷ (0x08E2, 0x08E2)
    ∷ (0x180E, 0x180E)
    ∷ (0x200B, 0x200F)
    ∷ (0x202A, 0x202E)
    ∷ (0x2060, 0x2064)
    ∷ (0x2066, 0x206F)
    ∷ (0xFEFF, 0xFEFF)
    ∷ (0xFFF9, 0xFFFB)
    ∷ []

unfoldable pub is_identifier_ignorable : ℕ → Bool
is_identifier_ignorable c = any (λ (low, high). within low high c) ignorable_ranges

-- `is_xid_continue` is the Unicode table of the library that the source calls.
unfoldable pub is_identifier_part : (ℕ → Bool) → ℕ → Bool
unfolding is_identifier_ignorable
is_identifier_part is_xid_continue c =
    leb c 0xFFFF && (is_xid_continue c || is_identifier_ignorable c)

-- `char::len_utf8`, and the length of a text in bytes.
unfoldable pub len_utf8 : ℕ → ℕ
len_utf8 c = if ltb c 0x80 then 1 else if ltb c 0x800 then 2 else if ltb c 0x10000 then 3 else 4

unfoldable pub byte_len : List ℕ → ℕ
unfolding len_utf8
byte_len [] = 0
byte_len (c ∷ cs) = len_utf8 c + byte_len cs

pub len_utf8-positive : (c : ℕ) → 1 ≤ len_utf8 c
unfolding len_utf8
len_utf8-positive c = ground arith

pub byte_len-append : (xs ys : List ℕ) → byte_len (xs ++ ys) ≡ byte_len xs + byte_len ys
unfolding byte_len
byte_len-append [] ys = omega arith
byte_len-append (c ∷ xs) ys = omega (arith, byte_len-append xs ys)
