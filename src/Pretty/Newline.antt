-- ===== src/Pretty/Newline.antt =====
-- fpp_format/src/doc.rs: the end of the text that `render` gives.
use fpp_tools.Prelude.{
  ℕ, ◌==◌, ◌≡◌, refl, Bool, false, ◌&&◌, List, [], ◌∷◌, ◌++◌, if◌then◌else◌, arith,
}
use fpp_tools.Pretty.Doc.{Doc}
use fpp_tools.Pretty.Fits.{newline_char}
use fpp_tools.Pretty.Render.{write}
use fpp_tools.Pretty.Align.{split_lines, join_lines, align}
use fpp_tools.Pretty.Finish.{no_text, trim_lines, pop_lf, finish, render}

abbrev pub ends_with_lf : List ℕ → Bool
ends_with_lf [] = false
ends_with_lf (c ∷ []) = c == newline_char
ends_with_lf (c ∷ d ∷ s) = ends_with_lf (d ∷ s)

ends_with_lf-drop :
    (c : ℕ) (rest : List ℕ)
    → ends_with_lf rest ≡ false
    → ends_with_lf (if no_text rest && c == newline_char then [] else c ∷ rest) ≡ false
ends_with_lf-drop c [] h = ground arith
ends_with_lf-drop c (d ∷ rest) h = h

ends_with_lf-pop_lf : (s : List ℕ) → ends_with_lf (pop_lf s) ≡ false
unfolding pop_lf
ends_with_lf-pop_lf [] = refl
ends_with_lf-pop_lf (c ∷ s) = ends_with_lf-drop c (pop_lf s) (ends_with_lf-pop_lf s)

-- What `render` gives ends with one line feed, and not with two.
pub render-newline :
    (width iw : ℕ) (d : Doc)
    → (s : List ℕ) × (render width iw d ≡ s ++ newline_char ∷ []) × (ends_with_lf s ≡ false)
unfolding render finish
render-newline width iw d =
    let o = write width iw d in
    let lines = trim_lines 0 o.verbatim_lines (split_lines (align o.out o.anchors)) in
    (pop_lf (join_lines lines), refl, ends_with_lf-pop_lf (join_lines lines))
