-- ===== src/Query/Ast.antt =====
-- fpp_query/src/query/ast.rs: the syntax tree of queries, and what a query needs. A text is the list of
-- its characters' code points, and `Box` is left out.
use fpp_tools.Prelude.{
  ℕ, ℤ, ◌==◌, Bool, true, false, ◌||◌, List, [], ◌∷◌, ◌++◌, Option, none, some, if◌then◌else◌,
}

pub record Span : Type 0 where
  pub start : ℕ
  pub len : ℕ

pub data RelOp : Type 0 where
  eq ne lt le gt ge contains starts_with ends_with matches : RelOp

unfoldable pub lifts_over_lists : RelOp → Bool
lifts_over_lists contains = true
lifts_over_lists starts_with = true
lifts_over_lists ends_with = true
lifts_over_lists matches = true
lifts_over_lists op = false

pub data Meta : Type 0 where
  all pre post kind file line included scope qualified stem : Meta

pub data Root : Type 0 where
  node : Root
  meta : Meta → Root
  ancestor : Option (List ℕ) → Root

pub data Seg : Type 0 where
  field : List ℕ → Span → Seg
  index : ℕ → Span → Seg

-- A `Path` is its root, its segments and its span.
mutual
  pub data Expr : Type 0 where
    str : List ℕ → Span → Expr
    int : ℤ → Span → Expr
    bool : Bool → Span → Expr
    null : Span → Expr
    path : Root → List Seg → Span → Expr
    call : List ℕ → Exprs → Span → Expr
    not : Expr → Span → Expr
    and or cat : Expr → Expr → Span → Expr
    rel : RelOp → Expr → Expr → Span → Expr
    in_list : Expr → Expr → Span → Expr
    list : Exprs → Span → Expr

  pub data Exprs : Type 0 where
    no_exprs : Exprs
    expr_and : Expr → Exprs → Exprs

-- `Expr::span`.
unfoldable pub span_of : Expr → Span
span_of (str s sp) = sp
span_of (int n sp) = sp
span_of (bool b sp) = sp
span_of (null sp) = sp
span_of (path r segs sp) = sp
span_of (call f args sp) = sp
span_of (not e sp) = sp
span_of (and a b sp) = sp
span_of (or a b sp) = sp
span_of (cat a b sp) = sp
span_of (rel op a b sp) = sp
span_of (in_list a b sp) = sp
span_of (list es sp) = sp

-- Equality of texts and of the kinds of ancestors.
unfoldable pub same_text : List ℕ → List ℕ → Bool
same_text [] [] = true
same_text [] (d ∷ t) = false
same_text (c ∷ s) [] = false
same_text (c ∷ s) (d ∷ t) = let rest = same_text s t in if c == d then rest else false

unfoldable pub same_kind : Option (List ℕ) → Option (List ℕ) → Bool
unfolding same_text
same_kind none none = true
same_kind none (some t) = false
same_kind (some s) none = false
same_kind (some s) (some t) = same_text s t

pub record Needs : Type 0 where
  pub node : Bool
  pub ancestors : List (Option (List ℕ))

abbrev pub nothing : Needs
nothing = record { node = false; ancestors = [] }

unfoldable pub has_kind : Option (List ℕ) → List (Option (List ℕ)) → Bool
unfolding same_kind
has_kind k [] = false
has_kind k (a ∷ ks) = let rest = has_kind k ks in if same_kind a k then true else rest

unfoldable pub add_kind : Option (List ℕ) → List (Option (List ℕ)) → List (Option (List ℕ))
unfolding has_kind
add_kind k ks = if has_kind k ks then ks else ks ++ k ∷ []

unfoldable pub visit_root : Root → Needs → Needs
unfolding add_kind
visit_root Root.node n = record n { node = true }
visit_root (Root.meta m) n = n
visit_root (Root.ancestor k) n = record n { ancestors = add_kind k n.ancestors }

unfoldable mutual
  unfolding visit_root

  pub visit : Expr → Needs → Needs
  visit (str s sp) n = n
  visit (int i sp) n = n
  visit (bool b sp) n = n
  visit (null sp) n = n
  visit (path r segs sp) n = visit_root r n
  visit (call f args sp) n = visit_each args n
  visit (not e sp) n = visit e n
  visit (and a b sp) n = visit b (visit a n)
  visit (or a b sp) n = visit b (visit a n)
  visit (cat a b sp) n = visit b (visit a n)
  visit (rel op a b sp) n = visit b (visit a n)
  visit (in_list a b sp) n = visit b (visit a n)
  visit (list es sp) n = visit_each es n

  pub visit_each : Exprs → Needs → Needs
  visit_each no_exprs n = n
  visit_each (expr_and e es) n = visit_each es (visit e n)

-- `Needs::of` and `Needs::union`.
unfoldable pub needs_of : Expr → Needs
unfolding visit
needs_of e = visit e nothing

unfoldable pub add_kinds : List (Option (List ℕ)) → List (Option (List ℕ)) → List (Option (List ℕ))
unfolding add_kind
add_kinds [] ks = ks
add_kinds (k ∷ more) ks = add_kinds more (add_kind k ks)

unfoldable pub union_into : List Needs → Needs → Needs
unfolding add_kinds
union_into [] out = out
union_into (n ∷ ns) out =
    union_into ns
      (record { node = out.node || n.node; ancestors = add_kinds n.ancestors out.ancestors })

unfoldable pub union : List Needs → Needs
unfolding union_into
union ns = union_into ns nothing
