-- ===== src/Examples/Documents.antt =====
-- The pretty printer at concrete documents.
use fpp_tools.Prelude.{ℕ, ◌++◌, ◌≡◌, ◌↔◌, refl, pos, Bool, true, false, List, [], ◌∷◌}
use fpp_tools.Lexer.Keywords.Table.{codes}
use fpp_tools.Pretty.Doc.{
  Doc, no_docs, doc_and, text, nest, concat, group, anchor, equals, softline, hardline, break, flat,
}
use fpp_tools.Pretty.Fits.{newline_char, has_lf, fits, work_lead}
use fpp_tools.Pretty.FirstLine.{WithinWidth, fits_iff}
use fpp_tools.Pretty.Render.{write}
use fpp_tools.Pretty.Finish.{render}
use fpp_tools.Pretty.Layout.{Layout}
use fpp_tools.Pretty.Positions.{FlatLines, Tracks, write-Tracks}
use fpp_tools.Pretty.Solid.{solid, render-solid}
use fpp_tools.Pretty.Newline.{ends_with_lf, render-newline}

abbrev words : List ℕ → List ℕ → Doc
words a b =
    group (concat (doc_and (text a) (doc_and (nest (pos 1) softline) (doc_and (text b) no_docs))))

abbrev entry : List ℕ → List ℕ → Doc
entry a b =
    concat
      (doc_and (text a) (doc_and (anchor equals (text (codes " = "))) (doc_and (text b) no_docs)))

-- Two constants whose equals signs are aligned, and a group that does not fit in ten columns.
abbrev constants : Doc
constants = concat (
    doc_and (entry (codes "ab") (codes "1")) (
      doc_and hardline (
        doc_and (entry (codes "a") (codes "2 "))
          (doc_and hardline (doc_and (words (codes "constant") (codes "value")) no_docs)))))

-- The text in ten columns.
constants_text : render 10 2 constants ≡ codes "ab = 1\na  = 2\nconstant\n  value\n"
unfolding render fpp_tools.Prelude.◌+ℤ◌
constants_text = refl

render-solid_example :
    (s : List ℕ) × Layout 2 (pos 0) break constants s × (solid (render 10 2 constants) ≡ solid s)
render-solid_example = render-solid 10 2 constants

fits_iff_example :
    (fits 10 0 (words (codes "constant") (codes "value")) [] ≡ true)
    ↔ WithinWidth 10 0 (work_lead ((flat, words (codes "constant") (codes "value")) ∷ []))
fits_iff_example = fits_iff 10 0 (words (codes "constant") (codes "value")) []

write-Tracks_example : Tracks (write 10 2 constants)
unfolding FlatLines has_lf
write-Tracks_example =
    write-Tracks 10 2 constants
      ((tt, (tt, (tt, tt))), (tt, ((tt, (tt, (tt, tt))), (tt, ((tt, (refl, (tt, tt))), tt)))))

render-newline_example :
    (s : List ℕ) × (render 10 2 constants ≡ s ++ newline_char ∷ []) × (ends_with_lf s ≡ false)
render-newline_example = render-newline 10 2 constants
