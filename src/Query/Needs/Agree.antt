-- ===== src/Query/Needs/Agree.antt =====
-- fpp_query/src/query/ast.rs, eval.rs: bindings that agree on what `Needs` says of a query.
use fpp_tools.Prelude.{ℕ, ◌≡◌, refl, ap, true, List, Option, if◌then◌else◌, ok}
use fpp_tools.Lexer.Keywords.Table.{codes}
use fpp_tools.Query.Ast.{
  Root, Seg, Expr, Exprs, no_exprs, expr_and, Needs, has_kind, visit_root, visit, visit_each, Span,
}
use fpp_tools.Query.Values.{Json, Bindings}
use fpp_tools.Query.Expr.{eval, eval_each, eval_path, eval_call, navigate, spans_of, no_segs}
use fpp_tools.Query.Needs.Kinds.{has_kind-add_kind, has_kind-add_kind_self}

-- Bindings that agree on what is needed; the kind and the metadata are always there.
pub record AgreeOn {V : Type 0} (n : Needs) (b c : Bindings V) : Type 0 where
  pub kind_agrees : b.kind ≡ c.kind
  pub meta_agrees : b.meta ≡ c.meta
  pub node_agrees : n.node ≡ true → b.node ≡ c.node
  pub ancestor_agrees :
      (k : Option (List ℕ)) → has_kind k n.ancestors ≡ true → b.ancestor k ≡ c.ancestor k

-- What is needed by a part is needed by the whole.
pub agree_visit_root :
    {V : Type 0} (b c : Bindings V) (r : Root) (n : Needs)
    → AgreeOn (visit_root r n) b c
    → AgreeOn n b c
unfolding visit_root
agree_visit_root b c Root.node n agree = record {
  kind_agrees = agree.kind_agrees;
  meta_agrees = agree.meta_agrees;
  node_agrees = λ needed. agree.node_agrees refl;
  ancestor_agrees = agree.ancestor_agrees;
}
agree_visit_root b c (Root.meta m) n agree = agree
agree_visit_root b c (Root.ancestor k) n agree = record {
  kind_agrees = agree.kind_agrees;
  meta_agrees = agree.meta_agrees;
  node_agrees = agree.node_agrees;
  ancestor_agrees = λ j found. agree.ancestor_agrees j (has_kind-add_kind j k n.ancestors found);
}

mutual
  unfolding visit

  pub agree_visit :
      {V : Type 0} (b c : Bindings V) (e : Expr) (n : Needs)
      → AgreeOn (visit e n) b c
      → AgreeOn n b c
  agree_visit b c (Expr.str s sp) n agree = agree
  agree_visit b c (Expr.int i sp) n agree = agree
  agree_visit b c (Expr.bool x sp) n agree = agree
  agree_visit b c (Expr.null sp) n agree = agree
  agree_visit b c (Expr.path r segs sp) n agree = agree_visit_root b c r n agree
  agree_visit b c (Expr.call f args sp) n agree = agree_visit_each b c args n agree
  agree_visit b c (Expr.not e sp) n agree = agree_visit b c e n agree
  agree_visit b c (Expr.and e f sp) n agree =
      agree_visit b c e n (agree_visit b c f (visit e n) agree)
  agree_visit b c (Expr.or e f sp) n agree =
      agree_visit b c e n (agree_visit b c f (visit e n) agree)
  agree_visit b c (Expr.cat e f sp) n agree =
      agree_visit b c e n (agree_visit b c f (visit e n) agree)
  agree_visit b c (Expr.rel op e f sp) n agree =
      agree_visit b c e n (agree_visit b c f (visit e n) agree)
  agree_visit b c (Expr.in_list e f sp) n agree =
      agree_visit b c e n (agree_visit b c f (visit e n) agree)
  agree_visit b c (Expr.list es sp) n agree = agree_visit_each b c es n agree

  agree_visit_each :
      {V : Type 0} (b c : Bindings V) (es : Exprs) (n : Needs)
      → AgreeOn (visit_each es n) b c
      → AgreeOn n b c
  agree_visit_each b c no_exprs n agree = agree
  agree_visit_each b c (expr_and e es) n agree =
      agree_visit b c e n (agree_visit_each b c es (visit e n) agree)

pub eval_path_agree :
    {V : Type 0} (json : Json V) (b c : Bindings V) (r : Root) (segs : List Seg) (sp : Span)
    (n : Needs)
    → AgreeOn (visit_root r n) b c
    → eval_path json b r segs sp ≡ eval_path json c r segs sp
unfolding eval_path visit_root
eval_path_agree json b c Root.node segs sp n agree =
    let same_node = agree.node_agrees refl in
    let same_name = agree.kind_agrees in simp (same_node, same_name)
eval_path_agree json b c (Root.meta m) segs sp n agree =
    ap (λ f. if no_segs segs then ok (f m) else navigate json (f m) segs (codes "metadata"))
      agree.meta_agrees
eval_path_agree json b c (Root.ancestor k) segs sp n agree =
    let same = agree.ancestor_agrees k (has_kind-add_kind_self k n.ancestors) in simp (same)

mutual
  unfolding visit eval

  pub eval_agree :
      {V : Type 0} (json : Json V) (b c : Bindings V) (e : Expr) (n : Needs)
      → AgreeOn (visit e n) b c
      → eval json b e ≡ eval json c e
  eval_agree json b c (Expr.str s sp) n agree = refl
  eval_agree json b c (Expr.int i sp) n agree = refl
  eval_agree json b c (Expr.bool x sp) n agree = refl
  eval_agree json b c (Expr.null sp) n agree = refl
  eval_agree json b c (Expr.path r segs sp) n agree = eval_path_agree json b c r segs sp n agree
  eval_agree json b c (Expr.call f args sp) n agree =
      ap (λ results. eval_call json f results (spans_of args) sp)
        (eval_each_agree json b c args n agree)
  eval_agree json b c (Expr.not e sp) n agree =
      let same = eval_agree json b c e n agree in simp (same)
  eval_agree json b c (Expr.and e f sp) n agree =
      let left = eval_agree json b c e n (agree_visit b c f (visit e n) agree) in
      let right = eval_agree json b c f (visit e n) agree in simp (left, right)
  eval_agree json b c (Expr.or e f sp) n agree =
      let left = eval_agree json b c e n (agree_visit b c f (visit e n) agree) in
      let right = eval_agree json b c f (visit e n) agree in simp (left, right)
  eval_agree json b c (Expr.cat e f sp) n agree =
      let left = eval_agree json b c e n (agree_visit b c f (visit e n) agree) in
      let right = eval_agree json b c f (visit e n) agree in simp (left, right)
  eval_agree json b c (Expr.rel op e f sp) n agree =
      let left = eval_agree json b c e n (agree_visit b c f (visit e n) agree) in
      let right = eval_agree json b c f (visit e n) agree in simp (left, right)
  eval_agree json b c (Expr.in_list e f sp) n agree =
      let left = eval_agree json b c e n (agree_visit b c f (visit e n) agree) in
      let right = eval_agree json b c f (visit e n) agree in simp (left, right)
  eval_agree json b c (Expr.list es sp) n agree =
      let same = eval_each_agree json b c es n agree in simp (same)

  pub eval_each_agree :
      {V : Type 0} (json : Json V) (b c : Bindings V) (es : Exprs) (n : Needs)
      → AgreeOn (visit_each es n) b c
      → eval_each json b es ≡ eval_each json c es
  eval_each_agree json b c no_exprs n agree = refl
  eval_each_agree json b c (expr_and e es) n agree =
      let first = eval_agree json b c e n (agree_visit_each b c es (visit e n) agree) in
      let rest = eval_each_agree json b c es (visit e n) agree in simp (first, rest)
