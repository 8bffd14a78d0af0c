-- ===== src/Pretty/Doc.antt =====
-- fpp_format/src/doc.rs: documents. A text is the list of its characters' code points, and `Rc` is
-- sharing only and is left out.
use fpp_tools.Prelude.{ℕ, suc, ◌+◌, ℤ, Bool, true, false, List, [], ◌∷◌}

pub data AnchorKind : Type 0 where
  post_annotation arrow equals : AnchorKind

mutual
  pub data Doc : Type 0 where
    nil : Doc
    text : List ℕ → Doc
    line : (flat : List ℕ) (cont : Bool) → Doc
    hard : (cont : Bool) → Doc
    nest : ℤ → Doc → Doc
    concat : Docs → Doc
    group : Doc → Doc
    anchor : AnchorKind → Doc → Doc

  pub data Docs : Type 0 where
    no_docs : Docs
    doc_and : Doc → Docs → Docs

-- `softline`, `softline_tight`, `contline` and `hardline`.
abbrev pub softline : Doc
softline = line (b' ' ∷ []) false

abbrev pub softline_tight : Doc
softline_tight = line [] false

abbrev pub contline : Doc
contline = line (b' ' ∷ []) true

abbrev pub hardline : Doc
hardline = hard false

pub data Mode : Type 0 where
  flat break : Mode

-- The number of nodes: the steps of a loop that takes a document apart.
unfoldable mutual
  pub size : Doc → ℕ
  size nil = 1
  size (text s) = 1
  size (line f c) = 1
  size (hard c) = 1
  size (nest n d) = suc (size d)
  size (concat ds) = suc (sizes ds)
  size (group d) = suc (size d)
  size (anchor k d) = suc (size d)

  pub sizes : Docs → ℕ
  sizes no_docs = 0
  sizes (doc_and d ds) = size d + sizes ds
