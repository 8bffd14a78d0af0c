-- ===== src/Pretty/Positions.antt =====
-- fpp_format/src/doc.rs: the row and the column that the loop of `render` keeps, and its verbatim lines.
use fpp_tools.Prelude.{
  ℕ, zero, suc, ◌+◌, ◌*◌, ◌≤◌, ◌≡◌, refl, sym, ap, subst, ◌∙◌, ℤ, pos, pos_part, Bool, true, false,
  List, [], ◌∷◌, ◌++◌, length, length-append, arith, Bool-cases, inl, inr,
}
use fpp_tools.Pretty.Doc.{
  Doc, Docs, no_docs, doc_and, nil, text, line, hard, nest, concat, group, anchor, Mode, flat,
  break, size,
}
use fpp_tools.Pretty.Fits.{has_lf}
use fpp_tools.Pretty.Render.{
  Output, Stack, count_lf, after_lf, rows, emit_text, break_text, emit_break, emit_flat,
  emit_anchor, push_docs, render_frame, render_loop, initial_output, write,
}
use fpp_tools.Pretty.Lines.{
  last_line, count_lf-append, count_lf-none, last_line-append, last_line-after, length-replicate,
  break_text-has_lf, break_text-after_lf, break_text-count_lf,
}

-- No line of the document has a line feed in its flat text.
unfoldable mutual
  pub FlatLines : Doc → Type 0
  FlatLines nil = Unit
  FlatLines (text s) = Unit
  FlatLines (line f c) = has_lf f ≡ false
  FlatLines (hard c) = Unit
  FlatLines (nest n d) = FlatLines d
  FlatLines (concat ds) = AllFlatLines ds
  FlatLines (group d) = FlatLines d
  FlatLines (anchor k d) = FlatLines d

  pub AllFlatLines : Docs → Type 0
  AllFlatLines no_docs = Unit
  AllFlatLines (doc_and d ds) = FlatLines d × AllFlatLines ds

-- The numbers rise from `low` on and stay below `high`.
abbrev pub Rising : ℕ → List ℕ → ℕ → Type 0
Rising low [] high = low ≤ high
Rising low (n ∷ ns) high = (low ≤ n) × Rising (suc n) ns high

-- The state agrees with the text written so far.
pub record Tracks (o : Output) : Type 0 where
  pub row_is : o.row ≡ count_lf o.out
  pub col_is : o.col ≡ length (last_line o.out)
  pub rising : Rising 0 o.verbatim_lines o.row

Rising-rows : (n row : ℕ) → Rising row (rows row n) (row + n)
unfolding rows
Rising-rows zero row = omega arith
Rising-rows (suc n) row = (
  omega arith,
  subst (Rising (suc row) (rows (suc row) n)) (omega arith) (Rising-rows n (suc row)),
)

Rising-lower :
    (low row : ℕ) (ns : List ℕ) (high : ℕ) → low ≤ row → Rising row ns high → Rising low ns high
Rising-lower low row [] high h k = omega arith
Rising-lower low row (n ∷ ns) high h k = (omega (arith, k.0), k.1)

Rising-higher :
    (low : ℕ) (ns : List ℕ) (row high : ℕ) → row ≤ high → Rising low ns row → Rising low ns high
Rising-higher low [] row high h k = omega arith
Rising-higher low (n ∷ ns) row high h k = (k.0, Rising-higher (suc n) ns row high h k.1)

Rising-append :
    (low row : ℕ) (ns ms : List ℕ) (high : ℕ)
    → Rising low ns row
    → Rising row ms high
    → Rising low (ns ++ ms) high
Rising-append low row [] ms high h k = Rising-lower low row ms high h k
Rising-append low row (n ∷ ns) ms high h k = (h.0, Rising-append (suc n) row ns ms high h.1 k)

-- What is written has no line feed.
Tracks-inline :
    (s : List ℕ) (o : Output)
    → has_lf s ≡ false
    → Tracks o
    → Tracks (record o { out = o.out ++ s; col = o.col + length s })
Tracks-inline s o h t = record {
  row_is = omega (arith, t.row_is, count_lf-append o.out s, count_lf-none s h);
  col_is =
      omega (
        arith,
        t.col_is,
        ap length (last_line-append o.out s h),
        length-append (last_line o.out) s,
      );
  rising = t.rising;
}

emit_text-newline_char :
    (s : List ℕ) (o : Output)
    → has_lf s ≡ true
    → emit_text s o ≡ record o {
      out = o.out ++ s;
      verbatim_lines = o.verbatim_lines ++ rows o.row (count_lf s);
      row = o.row + count_lf s;
      col = length (after_lf s);
    }
unfolding emit_text
emit_text-newline_char s o h = rw (h) refl

emit_text-inline :
    (s : List ℕ) (o : Output)
    → has_lf s ≡ false
    → emit_text s o ≡ record o { out = o.out ++ s; col = o.col + length s }
unfolding emit_text
emit_text-inline s o h = rw (h) refl

Tracks-emit_text : (s : List ℕ) (o : Output) → Tracks o → Tracks (emit_text s o)
Tracks-emit_text s o t = elim (Bool-cases (has_lf s)) [
  | inl h ↦ subst Tracks (sym (emit_text-newline_char s o h)) (record {
    row_is = omega (arith, t.row_is, count_lf-append o.out s);
    col_is = ap length (sym (last_line-after o.out s h));
    rising =
        Rising-append 0 o.row o.verbatim_lines (rows o.row (count_lf s)) (o.row + count_lf s)
          t.rising (Rising-rows (count_lf s) o.row);
  })
  | inr h ↦ subst Tracks (sym (emit_text-inline s o h)) (Tracks-inline s o h t)
]

Tracks-emit_break :
    (cont : Bool) (i : ℤ) (iw : ℕ) (o : Output) → Tracks o → Tracks (emit_break cont i iw o)
unfolding emit_break
Tracks-emit_break cont i iw o t =
    let spaces = pos_part i * iw in
    let ended = last_line-after o.out (break_text cont spaces) (break_text-has_lf cont spaces) in
    record {
      row_is = omega (
        arith,
        t.row_is,
        count_lf-append o.out (break_text cont spaces),
        break_text-count_lf cont spaces,
      );
      col_is =
          sym (ap length (ended ∙ break_text-after_lf cont spaces) ∙ length-replicate spaces b' ');
      rising = Rising-higher 0 o.verbatim_lines o.row (o.row + 1) (omega arith) t.rising;
    }

AllFrames : Stack → Type 0
AllFrames [] = Unit
AllFrames (f ∷ stack) = FlatLines f.doc × AllFrames stack

push_docs-AllFrames :
    (i : ℤ) (m : Mode) (ds : Docs) (stack : Stack)
    → AllFlatLines ds
    → AllFrames stack
    → AllFrames (push_docs i m ds stack)
unfolding push_docs AllFrames FlatLines
push_docs-AllFrames i m no_docs stack h k = k
push_docs-AllFrames i m (doc_and d ds) stack h k = (h.0, push_docs-AllFrames i m ds stack h.1 k)

-- One frame keeps the state in agreement with the text.
render_frame-Tracks :
    (width iw : ℕ) (i : ℤ) (m : Mode) (d : Doc) (stack : Stack) (o : Output)
    → FlatLines d
    → AllFrames stack
    → Tracks o
    → let (stack', o') = render_frame width iw i m d stack o in AllFrames stack' × Tracks o'
unfolding render_frame AllFrames FlatLines emit_flat emit_anchor
render_frame-Tracks width iw i m nil stack o h k t = (k, t)
render_frame-Tracks width iw i m (text s) stack o h k t = (k, Tracks-emit_text s o t)
render_frame-Tracks width iw i m (anchor kind d) stack o h k t =
    ((h, k), record { row_is = t.row_is; col_is = t.col_is; rising = t.rising })
render_frame-Tracks width iw i m (concat ds) stack o h k t =
    (push_docs-AllFrames i m ds stack h k, t)
render_frame-Tracks width iw i m (nest n d) stack o h k t = ((h, k), t)
render_frame-Tracks width iw i m (group d) stack o h k t = ((h, k), t)
render_frame-Tracks width iw i flat (line s c) stack o h k t = (k, Tracks-inline s o h t)
render_frame-Tracks width iw i break (line s c) stack o h k t = (k, Tracks-emit_break c i iw o t)
render_frame-Tracks width iw i m (hard c) stack o h k t = (k, Tracks-emit_break c i iw o t)

render_loop-Tracks :
    (fuel width iw : ℕ) (stack : Stack) (o : Output)
    → AllFrames stack
    → Tracks o
    → Tracks (render_loop fuel width iw stack o)
unfolding render_loop AllFrames
render_loop-Tracks zero width iw stack o h t = t
render_loop-Tracks (suc fuel) width iw [] o h t = t
render_loop-Tracks (suc fuel) width iw (f ∷ stack) o (h, k) t =
    let (next, o') = render_frame width iw f.indent f.mode f.doc stack o in
    let (frames, tracks) = render_frame-Tracks width iw f.indent f.mode f.doc stack o h k t in
    render_loop-Tracks fuel width iw next o' frames tracks

-- Where no flat text of a document has a line feed, the row and the column that `render` keeps are those of the end of the text, and the verbatim lines rise,
-- as the binary search for them needs.
pub write-Tracks : (width iw : ℕ) (d : Doc) → FlatLines d → Tracks (write width iw d)
unfolding write initial_output AllFrames count_lf last_line has_lf
write-Tracks width iw d h =
    render_loop-Tracks (suc (size d)) width iw
      (record { indent = pos 0; mode = break; doc = d } ∷ []) initial_output (h, tt)
      (record { row_is = refl; col_is = refl; rising = omega arith })
