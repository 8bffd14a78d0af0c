-- ===== src/Query/Needs/Union.antt =====
-- fpp_query/src/query/ast.rs: what `Needs::union` promises to the evaluation of eval.rs.
use fpp_tools.Prelude.{ℕ, ◌≡◌, Bool, true, List, [], ◌∷◌, Option, All, map, arith}
use fpp_tools.Query.Ast.{Expr, Needs, has_kind, needs_of, nothing, union_into, union}
use fpp_tools.Query.Values.{Json, Bindings}
use fpp_tools.Query.Expr.{eval}
use fpp_tools.Query.Needs.Kinds.{has_kind-add_kinds, has_kind-add_kinds_more}
use fpp_tools.Query.Needs.Agree.{AgreeOn, eval_agree}

agree_part :
    {V : Type 0} {b c : Bindings V} {whole : Needs}
    → AgreeOn whole b c
    → (node : Bool) (ancestors : List (Option (List ℕ))) → (node ≡ true → whole.node ≡ true)
    → ((k : Option (List ℕ)) → has_kind k ancestors ≡ true → has_kind k whole.ancestors ≡ true)
    → AgreeOn (record { node = node; ancestors = ancestors }) b c
agree_part agree node ancestors same_node same_kinds = record {
  kind_agrees = agree.kind_agrees;
  meta_agrees = agree.meta_agrees;
  node_agrees = λ needed. agree.node_agrees (same_node needed);
  ancestor_agrees = λ k found. agree.ancestor_agrees k (same_kinds k found);
}

agree_union_into :
    {V : Type 0} (b c : Bindings V) (ns : List Needs) (out : Needs)
    → AgreeOn (union_into ns out) b c
    → AgreeOn out b c × All (λ n. AgreeOn n b c) ns
unfolding union_into
agree_union_into b c [] out agree = (agree, tt)
agree_union_into b c (n ∷ ns) out agree =
    let (both, rest) = agree_union_into b c ns _ agree in
    (
      agree_part both _ _ (λ needed. ground arith)
          (λ k. has_kind-add_kinds k n.ancestors out.ancestors),
      (
        agree_part both _ _ (λ needed. ground arith)
            (λ k. has_kind-add_kinds_more k n.ancestors out.ancestors),
        rest,
      ),
    )

evals_agree :
    {V : Type 0} (json : Json V) (b c : Bindings V) (es : List Expr)
    → All (λ n. AgreeOn n b c) (map needs_of es)
    → All (λ e. eval json b e ≡ eval json c e) es
unfolding needs_of
evals_agree json b c [] agree = tt
evals_agree json b c (e ∷ es) (first, rest) =
    (eval_agree json b c e nothing first, evals_agree json b c es rest)

-- Take the union of what several queries need. For bindings that agree on the metadata, the kind, the
-- ancestors that it lists, and the node where it says that one is read, each of the queries gives the
-- same value, or fails with the same diagnostic.
pub eval-union :
    {V : Type 0} (json : Json V) (b c : Bindings V) (es : List Expr)
    → AgreeOn (union (map needs_of es)) b c
    → All (λ e. eval json b e ≡ eval json c e) es
unfolding union
eval-union json b c es agree =
    evals_agree json b c es (agree_union_into b c (map needs_of es) nothing agree).1
