-- ===== src/Pretty/Finish.antt =====
-- fpp_format/src/doc.rs: `finish`, and `render` as a whole.
use fpp_tools.Prelude.{
  ℕ, suc, ◌==◌, leb, Bool, true, false, ◌&&◌, List, [], ◌∷◌, ◌++◌, any, if◌then◌else◌,
}
use fpp_tools.Pretty.Doc.{Doc}
use fpp_tools.Pretty.Fits.{newline_char}
use fpp_tools.Pretty.Render.{write}
use fpp_tools.Pretty.Align.{split_lines, join_lines, align}

-- `char::is_whitespace`: the ranges of the characters with the property White_Space.
abbrev pub white_ranges : List (ℕ × ℕ)
white_ranges =
    (0x0009, 0x000D)
    ∷ (0x0020, 0x0020)
    ∷ (0x0085, 0x0085)
    ∷ (0x00A0, 0x00A0)
    ∷ (0x1680, 0x1680)
    ∷ (0x2000, 0x200A)
    ∷ (0x2028, 0x2029)
    ∷ (0x202F, 0x202F)
    ∷ (0x205F, 0x205F)
    ∷ (0x3000, 0x3000)
    ∷ []

unfoldable pub is_white : ℕ → Bool
is_white c = any (λ (low, high). leb low c && leb c high) white_ranges

abbrev pub no_text : List ℕ → Bool
no_text [] = true
no_text (c ∷ s) = false

-- `trim_end`.
unfoldable pub trim_end : List ℕ → List ℕ
unfolding is_white
trim_end [] = []
trim_end (c ∷ s) = let rest = trim_end s in if no_text rest && is_white c then [] else c ∷ rest

-- `verbatim_lines.binary_search(&i).is_ok()`: the list rises.
abbrev pub contains : ℕ → List ℕ → Bool
contains i ns = any (λ n. n == i) ns

unfoldable pub trim_lines : ℕ → List ℕ → List (List ℕ) → List (List ℕ)
unfolding trim_end
trim_lines i verbatim [] = []
trim_lines i verbatim (l ∷ ls) =
    let trimmed = if contains i verbatim then l else trim_end l in
    trimmed ∷ trim_lines (suc i) verbatim ls

-- The loop that pops the line feeds at the end.
unfoldable pub pop_lf : List ℕ → List ℕ
pop_lf [] = []
pop_lf (c ∷ s) = let rest = pop_lf s in if no_text rest && c == newline_char then [] else c ∷ rest

unfoldable pub finish : List ℕ → List ℕ → List ℕ
unfolding split_lines join_lines trim_lines pop_lf
finish text verbatim =
    pop_lf (join_lines (trim_lines 0 verbatim (split_lines text))) ++ newline_char ∷ []

unfoldable pub render : ℕ → ℕ → Doc → List ℕ
unfolding write align finish
render width iw d = let o = write width iw d in finish (align o.out o.anchors) o.verbatim_lines
