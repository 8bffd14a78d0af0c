-- ===== src/Pretty/Render.antt =====
-- fpp_format/src/doc.rs: the loop of `render`, which writes a document with its mode and indentation.
use fpp_tools.Prelude.{
  ℕ, zero, suc, ◌+◌, ◌*◌, ◌==◌, ℤ, pos, pos_part, ◌+ℤ◌, Bool, List, [], ◌∷◌, ◌++◌, if◌then◌else◌,
  length, replicate, map,
}
use fpp_tools.Pretty.Doc.{
  AnchorKind, Doc, Docs, no_docs, doc_and, nil, text, line, hard, nest, concat, group, anchor, Mode,
  flat, break, size,
}
use fpp_tools.Pretty.Fits.{newline_char, has_lf, fits}

-- The position of an anchor, the `line` of the source being `row`.
pub record Anchor : Type 0 where
  pub row : ℕ
  pub col : ℕ
  pub level : ℤ
  pub kind : AnchorKind

-- The local variables of `render`.
pub record Output : Type 0 where
  pub out : List ℕ
  pub col : ℕ
  pub row : ℕ
  pub anchors : List Anchor
  pub verbatim_lines : List ℕ

pub record Frame : Type 0 where
  pub indent : ℤ
  pub mode : Mode
  pub doc : Doc

abbrev pub Stack : Type 0
Stack = List Frame

-- `s.matches('\n').count()`, and `s[nl + 1..]` behind the last line feed.
unfoldable pub count_lf : List ℕ → ℕ
count_lf [] = 0
count_lf (c ∷ s) = let rest = count_lf s in if c == newline_char then suc rest else rest

unfoldable pub after_lf : List ℕ → List ℕ
unfolding has_lf
after_lf [] = []
after_lf (c ∷ s) =
    let rest = after_lf s in if has_lf s then rest else if c == newline_char then s else []

-- `row..row + n`.
unfoldable pub rows : ℕ → ℕ → List ℕ
rows row zero = []
rows row (suc n) = row ∷ rows (suc row) n

unfoldable pub emit_text : List ℕ → Output → Output
unfolding has_lf count_lf after_lf rows
emit_text s o =
    let written = o.out ++ s in
    if has_lf s
    then record o {
      out = written;
      verbatim_lines = o.verbatim_lines ++ rows o.row (count_lf s);
      row = o.row + count_lf s;
      col = length (after_lf s);
    }
    else record o { out = written; col = o.col + length s }

-- The text of a break.
unfoldable pub break_text : Bool → ℕ → List ℕ
break_text cont spaces =
    let newline = newline_char ∷ replicate spaces b' ' in
    if cont then b' ' ∷ b'\\' ∷ newline else newline

unfoldable pub emit_break : Bool → ℤ → ℕ → Output → Output
unfolding break_text
emit_break cont indent indent_width o =
    let spaces = pos_part indent * indent_width in
    record o { out = o.out ++ break_text cont spaces; row = o.row + 1; col = spaces }

unfoldable pub emit_flat : List ℕ → Output → Output
emit_flat s o = record o { out = o.out ++ s; col = o.col + length s }

unfoldable pub emit_anchor : AnchorKind → ℤ → Output → Output
emit_anchor kind indent o = record o {
  anchors = o.anchors ++ record { row = o.row; col = o.col; level = indent; kind = kind } ∷ [];
}

unfoldable pub push_docs : ℤ → Mode → Docs → Stack → Stack
push_docs indent m no_docs stack = stack
push_docs indent m (doc_and d ds) stack =
    record { indent = indent; mode = m; doc = d } ∷ push_docs indent m ds stack

abbrev pub work_of : Frame → Mode × Doc
work_of f = (f.mode, f.doc)

-- What a frame does: it may write, and it may put frames on the stack.
unfoldable pub render_frame : ℕ → ℕ → ℤ → Mode → Doc → Stack → Output → Stack × Output
unfolding emit_text emit_break emit_flat emit_anchor push_docs fits
render_frame width iw indent m nil stack o = (stack, o)
render_frame width iw indent m (text s) stack o = (stack, emit_text s o)
render_frame width iw indent m (anchor kind d) stack o =
    (record { indent = indent; mode = m; doc = d } ∷ stack, emit_anchor kind indent o)
render_frame width iw indent m (concat ds) stack o = (push_docs indent m ds stack, o)
render_frame width iw indent m (nest n d) stack o =
    (record { indent = indent +ℤ n; mode = m; doc = d } ∷ stack, o)
render_frame width iw indent m (group d) stack o =
    let chosen = if fits width o.col d (map work_of stack) then flat else break in
    (record { indent = indent; mode = chosen; doc = d } ∷ stack, o)
render_frame width iw indent flat (line f cont) stack o = (stack, emit_flat f o)
render_frame width iw indent break (line f cont) stack o = (stack, emit_break cont indent iw o)
render_frame width iw indent m (hard cont) stack o = (stack, emit_break cont indent iw o)

unfoldable pub render_loop : ℕ → ℕ → ℕ → Stack → Output → Output
unfolding render_frame
render_loop zero width iw stack o = o
render_loop (suc fuel) width iw [] o = o
render_loop (suc fuel) width iw (f ∷ stack) o =
    let (stack', o') = render_frame width iw f.indent f.mode f.doc stack o in
    render_loop fuel width iw stack' o'

unfoldable pub initial_output : Output
initial_output = record { out = []; col = 0; row = 0; anchors = []; verbatim_lines = [] }

-- The loop over the whole document; each round takes a node off the stack.
unfoldable pub write : ℕ → ℕ → Doc → Output
unfolding render_loop initial_output size
write width iw d =
    render_loop (suc (size d)) width iw (record { indent = pos 0; mode = break; doc = d } ∷ [])
      initial_output
