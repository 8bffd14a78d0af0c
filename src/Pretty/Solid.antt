-- ===== src/Pretty/Solid.antt =====
-- fpp_format/src/doc.rs: the passes behind the loop of `render` change white space only.
use fpp_tools.Prelude.{
  append-nil, ℕ, zero, suc, ◌+◌, ◌-◌, ◌==◌, ◌≡◌, refl, sym, ap, subst, ◌∙◌, ltb, pos, Bool, true,
  false, ◌&&◌, List, [], ◌∷◌, ◌++◌, Option, none, some, Option-cases, if◌then◌else◌, take, drop,
  replicate, arith, Bool-cases, inl, inr, ==_iff,
}
use fpp_tools.Pretty.Doc.{Doc, break}
use fpp_tools.Pretty.Fits.{newline_char}
use fpp_tools.Pretty.Render.{Anchor, write}
use fpp_tools.Pretty.Align.{
  on_first, split_lines, join_lines, Shifts, insert_spaces, pad_line, shifted, align_anchor,
  align_group, align_groups, align, target_col, shift_of, add_anchors, all_runs, sort_groups,
}
use fpp_tools.Pretty.Finish.{
  is_white, no_text, trim_end, contains, trim_lines, pop_lf, finish, render,
}
use fpp_tools.Pretty.Layout.{Layout, write-Layout}

-- The characters that are not white space, in their order.
pub solid : List ℕ → List ℕ
solid [] = []
solid (c ∷ s) = let rest = solid s in if is_white c then rest else c ∷ rest

solids : List (List ℕ) → List ℕ
unfolding solid
solids [] = []
solids (l ∷ ls) = solid l ++ solids ls

solid-append : (s t : List ℕ) → solid (s ++ t) ≡ solid s ++ solid t
unfolding solid
solid-append [] t = refl
solid-append (c ∷ s) t = ground (arith, solid-append s t)

solid-join_lines : (ls : List (List ℕ)) → solid (join_lines ls) ≡ solids ls
unfolding join_lines solids solid is_white
solid-join_lines [] = refl
solid-join_lines (l ∷ []) = sym (append-nil (solid l))
solid-join_lines (l ∷ k ∷ ls) =
    solid-append l (newline_char ∷ join_lines (k ∷ ls))
    ∙ ap (λ t. solid l ++ t) (solid-join_lines (k ∷ ls))

solids-on_first :
    (c : ℕ) (ls : List (List ℕ))
    → solids (on_first (λ l. c ∷ l) ls) ≡ (if is_white c then solids ls else c ∷ solids ls)
unfolding solids solid
solids-on_first c [] = ground arith
solids-on_first c (l ∷ ls) = ground arith

newline_char-white : (c : ℕ) → (c == newline_char) ≡ true → is_white c ≡ true
unfolding is_white
newline_char-white c h = subst (λ c. is_white c ≡ true) (sym ((==_iff c newline_char).0 h)) refl

solid-white : (c : ℕ) (s : List ℕ) → is_white c ≡ true → solid (c ∷ s) ≡ solid s
unfolding solid
solid-white c s h = rw (h) refl

solid-cons : (c : ℕ) (s t : List ℕ) → solid s ≡ solid t → solid (c ∷ s) ≡ solid (c ∷ t)
unfolding solid
solid-cons c s t e = rw (e) refl

solid-if :
    (c : ℕ) (s : List ℕ) {t : List ℕ}
    → t ≡ solid s
    → (if is_white c then t else c ∷ t) ≡ solid (c ∷ s)
unfolding solid
solid-if c s e = rw (e) refl

solids-split_lines : (s : List ℕ) → solids (split_lines s) ≡ solid s
unfolding split_lines solids solid
solids-split_lines [] = refl
solids-split_lines (c ∷ s) = elim (Bool-cases (c == newline_char)) [
  | inl h ↦ rw (h) (solids-split_lines s ∙ sym (solid-white c s (newline_char-white c h)))
  | inr h ↦ rw (h) (solids-on_first c (split_lines s) ∙ solid-if c s (solids-split_lines s))
]

solid-spaces : (n : ℕ) → solid (replicate n b' ') ≡ []
unfolding solid is_white
solid-spaces zero = refl
solid-spaces (suc n) = solid-spaces n

take-drop : (n : ℕ) (s : List ℕ) → take n s ++ drop n s ≡ s
take-drop zero s = refl
take-drop (suc n) [] = refl
take-drop (suc n) (c ∷ s) = ap (λ t. c ∷ t) (take-drop n s)

solid-insert_spaces : (at n : ℕ) (l : List ℕ) → solid (insert_spaces at n l) ≡ solid l
solid-insert_spaces at n l =
    solid-append (take at l) (replicate n b' ' ++ drop at l)
    ∙ (ap (λ t. solid (take at l) ++ t)
          (solid-append (replicate n b' ') (drop at l)
            ∙ ap (λ t. t ++ solid (drop at l)) (solid-spaces n))
        ∙ (sym (solid-append (take at l) (drop at l)) ∙ ap solid (take-drop at l)))

pad_line-none :
    (row at n : ℕ) (l : List ℕ) (ls : List (List ℕ))
    → pad_line row at n ls ≡ none
    → pad_line (suc row) at n (l ∷ ls) ≡ none
unfolding pad_line
pad_line-none row at n l ls e = rw (e) refl

pad_line-some :
    (row at n : ℕ) (l : List ℕ) (ls padded : List (List ℕ))
    → pad_line row at n ls ≡ some padded
    → pad_line (suc row) at n (l ∷ ls) ≡ some (l ∷ padded)
unfolding pad_line
pad_line-some row at n l ls padded e = rw (e) refl

solids-pad_line :
    (row at n : ℕ) (ls ms : List (List ℕ)) → pad_line row at n ls ≡ some ms → solids ms ≡ solids ls
unfolding pad_line solids
solids-pad_line row at n [] ms h = cc
solids-pad_line zero at n (l ∷ ls) ms h =
    let padded : ms ≡ insert_spaces at n l ∷ ls = cc in
    ap solids padded ∙ ap (λ t. t ++ solids ls) (solid-insert_spaces at n l)
solids-pad_line (suc row) at n (l ∷ ls) ms h = elim (Option-cases (pad_line row at n ls)) [
  | inl e ↦ absurd (let clash = pad_line-none row at n l ls e in cc)
  | inr (padded, e) ↦
      let found = pad_line-some row at n l ls padded e in
      let same : ms ≡ l ∷ padded = cc in
      ap solids same ∙ ap (λ t. solid l ++ t) (solids-pad_line row at n ls padded e)
]

solids-shifted :
    (a : Anchor) (at n : ℕ) (lines : List (List ℕ)) (shifts : Shifts) (o : Option (List (List ℕ)))
    → pad_line a.row at n lines ≡ o
    → solids (shifted a n lines shifts o).0 ≡ solids lines
unfolding shifted
solids-shifted a at n lines shifts none e = refl
solids-shifted a at n lines shifts (some padded) e = solids-pad_line a.row at n lines padded e

solids-if :
    (b : Bool) (x y : List (List ℕ) × Shifts) (lines : List (List ℕ))
    → solids x.0 ≡ solids lines
    → solids y.0 ≡ solids lines
    → solids (if b then x else y).0 ≡ solids lines
solids-if true x y lines h k = h
solids-if false x y lines h k = k

solids-align_anchor :
    (target : ℕ) (a : Anchor) (lines : List (List ℕ)) (shifts : Shifts)
    → solids (align_anchor target a (lines, shifts)).0 ≡ solids lines
unfolding align_anchor
solids-align_anchor target a lines shifts =
    let at = a.col + shift_of a.row shifts in
    solids-if (ltb at target) _ _ lines
      (solids-shifted a at (target - at) lines shifts (pad_line a.row at (target - at) lines) refl)
      refl

solids-align_group :
    (target : ℕ) (g : List Anchor) (lines : List (List ℕ)) (shifts : Shifts)
    → solids (align_group target g (lines, shifts)).0 ≡ solids lines
unfolding align_group
solids-align_group target [] lines shifts = refl
solids-align_group target (a ∷ g) lines shifts =
    let (lines', shifts') = align_anchor target a (lines, shifts) in
    solids-align_group target g lines' shifts' ∙ solids-align_anchor target a lines shifts

solids-align_groups :
    (groups : List (List Anchor)) (lines : List (List ℕ)) (shifts : Shifts)
    → solids (align_groups groups (lines, shifts)).0 ≡ solids lines
unfolding align_groups
solids-align_groups [] lines shifts = refl
solids-align_groups (g ∷ groups) lines shifts =
    let (lines', shifts') = align_group (target_col shifts g) g (lines, shifts) in
    solids-align_groups groups lines' shifts'
    ∙ solids-align_group (target_col shifts g) g lines shifts

solid-align : (s : List ℕ) (anchors : List Anchor) → solid (align s anchors) ≡ solid s
unfolding align
solid-align s [] = refl
solid-align s (a ∷ anchors) =
    let groups = sort_groups (all_runs (add_anchors (a ∷ anchors) [])) in
    solid-join_lines (align_groups groups (split_lines s, [])).0
    ∙ (solids-align_groups groups (split_lines s) [] ∙ solids-split_lines s)

-- White space is dropped where nothing stands behind it.
solid-drop :
    (c : ℕ) (b : Bool) (rest s : List ℕ)
    → (b ≡ true → is_white c ≡ true)
    → solid rest ≡ solid s
    → solid (if no_text rest && b then [] else c ∷ rest) ≡ solid (c ∷ s)
solid-drop c true [] s h e = e ∙ sym (solid-white c s (h refl))
solid-drop c false [] s h e = solid-cons c [] s e
solid-drop c b (d ∷ rest) s h e = solid-cons c (d ∷ rest) s e

solid-trim_end : (s : List ℕ) → solid (trim_end s) ≡ solid s
unfolding trim_end
solid-trim_end [] = refl
solid-trim_end (c ∷ s) = solid-drop c (is_white c) (trim_end s) s (λ h. h) (solid-trim_end s)

solid-either : (b : Bool) (l t : List ℕ) → solid t ≡ solid l → solid (if b then l else t) ≡ solid l
solid-either true l t e = refl
solid-either false l t e = e

solids-trim_lines :
    (i : ℕ) (verbatim : List ℕ) (ls : List (List ℕ)) → solids (trim_lines i verbatim ls) ≡ solids ls
unfolding trim_lines solids
solids-trim_lines i verbatim [] = refl
solids-trim_lines i verbatim (l ∷ ls) =
    let rest = solids-trim_lines (suc i) verbatim ls in
    let first = solid-either (contains i verbatim) l (trim_end l) (solid-trim_end l) in
    ap (λ t. t ++ solids (trim_lines (suc i) verbatim ls)) first ∙ ap (λ t. solid l ++ t) rest

solid-pop_lf : (s : List ℕ) → solid (pop_lf s) ≡ solid s
unfolding pop_lf
solid-pop_lf [] = refl
solid-pop_lf (c ∷ s) =
    solid-drop c (c == newline_char) (pop_lf s) s (newline_char-white c) (solid-pop_lf s)

solid-finish : (s verbatim : List ℕ) → solid (finish s verbatim) ≡ solid s
unfolding finish is_white solid
solid-finish s verbatim =
    let ls = split_lines s in
    solid-append (pop_lf (join_lines (trim_lines 0 verbatim ls))) (newline_char ∷ [])
    ∙ (append-nil (solid (pop_lf (join_lines (trim_lines 0 verbatim ls))))
        ∙ (solid-pop_lf (join_lines (trim_lines 0 verbatim ls))
            ∙ (solid-join_lines (trim_lines 0 verbatim ls)
                ∙ (solids-trim_lines 0 verbatim ls ∙ solids-split_lines s))))

-- `render` ends on every document. Its text differs from a layout of the document in white space only:
-- the alignment and the trimming of lines lose no other character, and add none.
pub render-solid :
    (width iw : ℕ) (d : Doc)
    → (s : List ℕ) × Layout iw (pos 0) break d s × (solid (render width iw d) ≡ solid s)
unfolding render
render-solid width iw d =
    let o = write width iw d in
    (
      o.out,
      write-Layout width iw d,
      solid-finish (align o.out o.anchors) o.verbatim_lines ∙ solid-align o.out o.anchors,
    )
