-- ===== src/Pretty/Layout.antt =====
-- fpp_format/src/doc.rs: what the loop of `render` writes is a layout of the document.
use fpp_tools.Prelude.{
  append_assoc, append-nil, ℕ, zero, suc, ◌+◌, ◌*◌, ◌<◌, ◌≡◌, refl, sym, ap, subst, ◌∙◌, ℤ, pos,
  pos_part, ◌+ℤ◌, Bool, List, [], ◌∷◌, ◌++◌, if◌then◌else◌, map, arith,
}
use fpp_tools.Pretty.Doc.{
  AnchorKind, Doc, Docs, no_docs, doc_and, nil, text, line, hard, nest, concat, group, anchor, Mode,
  flat, break, size, sizes,
}
use fpp_tools.Pretty.Fits.{fits}
use fpp_tools.Pretty.Render.{
  Output, Frame, Stack, emit_text, break_text, emit_break, emit_flat, emit_anchor, push_docs,
  work_of, render_frame, render_loop, initial_output, write,
}

-- The text is a layout of the document at an indentation, flat or broken: its texts in their order,
-- each line as its flat text or as a break with the indentation of its place, each group either flat
-- or broken as a whole.
mutual
  pub data Layout (iw : ℕ) : ℤ → Mode → Doc → List ℕ → Type 0 where
    empty : {i : ℤ} {m : Mode} → Layout iw i m nil []
    written : {i : ℤ} {m : Mode} (s : List ℕ) → Layout iw i m (text s) s
    flat_line : {i : ℤ} (s : List ℕ) (cont : Bool) → Layout iw i flat (line s cont) s
    broken_line :
        {i : ℤ} (s : List ℕ) (cont : Bool)
        → Layout iw i break (line s cont) (break_text cont (pos_part i * iw))
    hard_line :
        {i : ℤ} {m : Mode} (cont : Bool)
        → Layout iw i m (hard cont) (break_text cont (pos_part i * iw))
    nested :
        {i : ℤ} {m : Mode} {n : ℤ} {d : Doc} {s : List ℕ}
        → Layout iw (i +ℤ n) m d s
        → Layout iw i m (nest n d) s
    in_order :
        {i : ℤ} {m : Mode} {ds : Docs} {s : List ℕ}
        → Layouts iw i m ds s
        → Layout iw i m (concat ds) s
    grouped :
        {i : ℤ} {m : Mode} {d : Doc} {s : List ℕ} (chosen : Mode)
        → Layout iw i chosen d s
        → Layout iw i m (group d) s
    anchored :
        {i : ℤ} {m : Mode} {k : AnchorKind} {d : Doc} {s : List ℕ}
        → Layout iw i m d s
        → Layout iw i m (anchor k d) s

  pub data Layouts (iw : ℕ) : ℤ → Mode → Docs → List ℕ → Type 0 where
    no_more : {i : ℤ} {m : Mode} → Layouts iw i m no_docs []
    and_then_more :
        {i : ℤ} {m : Mode} {d : Doc} {ds : Docs} {s t : List ℕ}
        → Layout iw i m d s
        → Layouts iw i m ds t
        → Layouts iw i m (doc_and d ds) (s ++ t)

-- The text is a layout of all frames, from the top of the stack on.
StackLayout : ℕ → Stack → List ℕ → Type 0
StackLayout iw [] t = t ≡ []
StackLayout iw (f ∷ stack) t =
    (s : List ℕ) × ((rest : List ℕ) × (t ≡ s ++ rest)
      × Layout iw f.indent f.mode f.doc s
      × StackLayout iw stack rest)

unfoldable pub stack_size : Stack → ℕ
unfolding size
stack_size [] = 0
stack_size (f ∷ stack) = size f.doc + stack_size stack

-- The loop adds a layout of the stack to what is written.
record Writes (iw : ℕ) (stack : Stack) (o r : Output) : Type 0 where
  added : List ℕ
  out_is : r.out ≡ o.out ++ added
  lays_out : StackLayout iw stack added

-- A frame that writes `s` itself.
Writes-text :
    (iw : ℕ) (f : Frame) (stack : Stack) (o o' r : Output) (s : List ℕ)
    → o'.out ≡ o.out ++ s
    → Layout iw f.indent f.mode f.doc s
    → Writes iw stack o' r
    → Writes iw (f ∷ stack) o r
unfolding StackLayout
Writes-text iw f stack o o' r s e l w = record {
  added = s ++ w.added;
  out_is = w.out_is ∙ (ap (λ t. t ++ w.added) e ∙ append_assoc o.out s w.added);
  lays_out = (s, (w.added, refl, l, w.lays_out));
}

-- A frame that puts another in its place.
Writes-frame :
    (iw : ℕ) (f g : Frame) (stack : Stack) (o o' r : Output)
    → o'.out ≡ o.out
    → ((s : List ℕ) → Layout iw g.indent g.mode g.doc s → Layout iw f.indent f.mode f.doc s)
    → Writes iw (g ∷ stack) o' r
    → Writes iw (f ∷ stack) o r
unfolding StackLayout
Writes-frame iw f g stack o o' r e h w =
    let (s, (rest, same, l, more)) = w.lays_out in
    record {
      added = w.added;
      out_is = w.out_is ∙ ap (λ t. t ++ w.added) e;
      lays_out = (s, (rest, same, h s l, more));
    }

frame : ℤ → Mode → Doc → Frame
frame i m d = record { indent = i; mode = m; doc = d }

push_docs-StackLayout :
    (iw : ℕ) (i : ℤ) (m : Mode) (ds : Docs) (stack : Stack) (t : List ℕ)
    → StackLayout iw (push_docs i m ds stack) t
    → (s : List ℕ) × ((rest : List ℕ) × (t ≡ s ++ rest)
        × Layouts iw i m ds s
        × StackLayout iw stack rest)
unfolding StackLayout push_docs
push_docs-StackLayout iw i m no_docs stack t h = ([], (t, refl, no_more, h))
push_docs-StackLayout iw i m (doc_and d ds) stack t (s, (u, e, l, h)) =
    let (s', (rest, e', l', h')) = push_docs-StackLayout iw i m ds stack u h in
    (
      s ++ s',
      (rest, e ∙ (ap (λ u. s ++ u) e' ∙ sym (append_assoc s s' rest)), and_then_more l l', h'),
    )

push_docs-stack_size :
    (i : ℤ) (m : Mode) (ds : Docs) (stack : Stack)
    → stack_size (push_docs i m ds stack) ≡ sizes ds + stack_size stack
unfolding push_docs stack_size sizes
push_docs-stack_size i m no_docs stack = omega arith
push_docs-stack_size i m (doc_and d ds) stack = omega (arith, push_docs-stack_size i m ds stack)

Writes-concat :
    (iw : ℕ) (i : ℤ) (m : Mode) (ds : Docs) (stack : Stack) (o r : Output)
    → Writes iw (push_docs i m ds stack) o r
    → Writes iw (frame i m (concat ds) ∷ stack) o r
unfolding StackLayout frame
Writes-concat iw i m ds stack o r w =
    let (s, (rest, e, l, h)) = push_docs-StackLayout iw i m ds stack w.added w.lays_out in
    record { added = w.added; out_is = w.out_is; lays_out = (s, (rest, e, in_order l, h)) }

emit_text-out : (s : List ℕ) (o : Output) → (emit_text s o).out ≡ o.out ++ s
unfolding emit_text
emit_text-out s o = ground arith

-- What follows a frame, once that is done, lays the frame out as well.
render_frame-Writes :
    (width iw : ℕ) (i : ℤ) (m : Mode) (d : Doc) (stack : Stack) (o r : Output)
    → (let (stack', o') = render_frame width iw i m d stack o in Writes iw stack' o' r)
    → Writes iw (frame i m d ∷ stack) o r
unfolding render_frame frame emit_break emit_flat emit_anchor
render_frame-Writes width iw i m nil stack o r w =
    Writes-text iw (frame i m nil) stack o o r [] (sym (append-nil o.out)) empty w
render_frame-Writes width iw i m (text s) stack o r w =
    Writes-text iw (frame i m (text s)) stack o _ r s (emit_text-out s o) (written s) w
render_frame-Writes width iw i m (anchor k d) stack o r w =
    Writes-frame iw (frame i m (anchor k d)) (frame i m d) stack o _ r refl (λ s l. anchored l) w
render_frame-Writes width iw i m (concat ds) stack o r w = Writes-concat iw i m ds stack o r w
render_frame-Writes width iw i m (nest n d) stack o r w =
    Writes-frame iw (frame i m (nest n d)) (frame (i +ℤ n) m d) stack o o r refl (λ s l. nested l) w
render_frame-Writes width iw i m (group d) stack o r w =
    let chosen = if fits width o.col d (map work_of stack) then flat else break in
    Writes-frame iw (frame i m (group d)) (frame i chosen d) stack o o r refl
      (λ s l. grouped chosen l) w
render_frame-Writes width iw i flat (line s c) stack o r w =
    Writes-text iw (frame i flat (line s c)) stack o _ r s refl (flat_line s c) w
render_frame-Writes width iw i break (line s c) stack o r w =
    Writes-text iw (frame i break (line s c)) stack o _ r _ refl (broken_line s c) w
render_frame-Writes width iw i m (hard c) stack o r w =
    Writes-text iw (frame i m (hard c)) stack o _ r _ refl (hard_line c) w

-- A frame is replaced by smaller ones.
pub render_frame-smaller :
    (width iw : ℕ) (i : ℤ) (m : Mode) (d : Doc) (stack : Stack) (o : Output)
    → stack_size (render_frame width iw i m d stack o).0 < size d + stack_size stack
unfolding render_frame stack_size size
render_frame-smaller width iw i m nil stack o = omega arith
render_frame-smaller width iw i m (text s) stack o = omega arith
render_frame-smaller width iw i m (anchor k d) stack o = omega arith
render_frame-smaller width iw i m (concat ds) stack o =
    omega (arith, push_docs-stack_size i m ds stack)
render_frame-smaller width iw i m (nest n d) stack o = omega arith
render_frame-smaller width iw i m (group d) stack o = omega arith
render_frame-smaller width iw i flat (line s c) stack o = omega arith
render_frame-smaller width iw i break (line s c) stack o = omega arith
render_frame-smaller width iw i m (hard c) stack o = omega arith

render_loop-Writes :
    (fuel width iw : ℕ) (stack : Stack) (o : Output)
    → stack_size stack < fuel
    → Writes iw stack o (render_loop fuel width iw stack o)
unfolding render_loop stack_size frame StackLayout
render_loop-Writes zero width iw stack o h = absurd (omega arith)
render_loop-Writes (suc fuel) width iw [] o h = record {
  added = [];
  out_is = sym (append-nil o.out);
  lays_out = refl;
}
render_loop-Writes (suc fuel) width iw (f ∷ stack) o h =
    let next = render_frame width iw f.indent f.mode f.doc stack o in
    let smaller = render_frame-smaller width iw f.indent f.mode f.doc stack o in
    render_frame-Writes width iw f.indent f.mode f.doc stack o _
      (render_loop-Writes fuel width iw next.0 next.1 (omega arith))

-- The loop of `render` ends on every document, and what it writes is a layout of the document: every
-- text in its order, a break with the indentation of its place for each line that is broken and for
-- each hard line, and each group flat or broken as a whole. Nothing else is written.
pub write-Layout : (width iw : ℕ) (d : Doc) → Layout iw (pos 0) break d (write width iw d).out
unfolding write stack_size initial_output StackLayout frame
write-Layout width iw d =
    let w =
      render_loop-Writes (suc (size d)) width iw (frame (pos 0) break d ∷ []) initial_output
        (omega arith) in
    let (s, (rest, e, l, ended)) = w.lays_out in
    let same = e ∙ (ap (λ t. s ++ t) ended ∙ append-nil s) in
    subst (Layout iw (pos 0) break d) (sym (w.out_is ∙ same)) l
