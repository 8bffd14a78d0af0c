-- ===== src/Query/Panics/Queries.antt =====
-- fpp_query/src/query/eval.rs: queries whose calls are those of parse.rs are evaluated without a panic.
use fpp_tools.Prelude.{
  ℕ, suc, ◌≡◌, refl, false, List, [], ◌∷◌, ◌++◌, some, All, ok, length, arith, and_then, ap, sym,
  ◌∙◌,
}
use fpp_tools.Lexer.Keywords.Table.{codes}
use fpp_tools.Query.Ast.{Span, Root, Seg, field, index, Expr, Exprs, no_exprs, expr_and}
use fpp_tools.Query.Values.{View, Json, Bindings, View}
use fpp_tools.Query.Eval.{Outcome, view_as_str, equal_views, stringify}
use fpp_tools.Query.Expr.{
  collect, read_field, read_index, ancestor_name, spans_of, eval_in, eval_cat, navigate, eval_path,
  eval, eval_each, eval_bool, bool_of_view, eval_stem, stem_text, check_stem,
}
use fpp_tools.Query.Panics.Relations.{
  is_panic, and_then_safe, if_safe, as_bool_safe, rel_safe, ItemsSmaller, stringify_safe,
  any_item_safe, equal_views_safe,
}
use fpp_tools.Query.Panics.Calls.{items_of_safe, eval_call_safe, functions, arity_in}

unfoldable pub count_args : Exprs → ℕ
count_args no_exprs = 0
count_args (expr_and e es) = suc (count_args es)

-- Each call is of a function of the table, with as many arguments as it takes.
unfoldable mutual
  unfolding count_args arity_in

  pub CallsFit : Expr → Type 0
  CallsFit (Expr.str s sp) = Unit
  CallsFit (Expr.int n sp) = Unit
  CallsFit (Expr.bool b sp) = Unit
  CallsFit (Expr.null sp) = Unit
  CallsFit (Expr.path r segs sp) = Unit
  CallsFit (Expr.call f args sp) =
      (arity_in functions f ≡ some (count_args args)) × CallsFitEach args
  CallsFit (Expr.not e sp) = CallsFit e
  CallsFit (Expr.and e f sp) = CallsFit e × CallsFit f
  CallsFit (Expr.or e f sp) = CallsFit e × CallsFit f
  CallsFit (Expr.cat e f sp) = CallsFit e × CallsFit f
  CallsFit (Expr.rel op e f sp) = CallsFit e × CallsFit f
  CallsFit (Expr.in_list e f sp) = CallsFit e × CallsFit f
  CallsFit (Expr.list es sp) = CallsFitEach es

  pub CallsFitEach : Exprs → Type 0
  CallsFitEach no_exprs = Unit
  CallsFitEach (expr_and e es) = CallsFit e × CallsFitEach es

module _ {V : Type 0} (json : Json V) where
  read_field_safe :
      (w : View V) (name owner : List ℕ) (span : Span)
      → is_panic (read_field json w name owner span) ≡ false
  unfolding read_field is_panic
  read_field_safe View.null name owner span = refl
  read_field_safe (View.bool b) name owner span = refl
  read_field_safe (View.number n s) name owner span = refl
  read_field_safe (View.string s) name owner span = refl
  read_field_safe (View.array vs) name owner span = refl
  read_field_safe (View.object f) name owner span = ground arith

  read_index_safe :
      (w : View V) (i : ℕ) (owner : List ℕ) (span : Span)
      → is_panic (read_index json w i owner span) ≡ false
  unfolding read_index is_panic
  read_index_safe View.null i owner span = refl
  read_index_safe (View.bool b) i owner span = refl
  read_index_safe (View.number n s) i owner span = refl
  read_index_safe (View.string s) i owner span = refl
  read_index_safe (View.array vs) i owner span = ground arith
  read_index_safe (View.object f) i owner span = refl

  navigate_safe :
      (v : V) (segs : List Seg) (owner : List ℕ) → is_panic (navigate json v segs owner) ≡ false
  unfolding navigate is_panic
  navigate_safe v [] owner = refl
  navigate_safe v (field name span ∷ segs) owner =
      and_then_safe _ _ (read_field_safe (json.view v) name owner span)
        λ w. navigate_safe w segs name
  navigate_safe v (index i span ∷ segs) owner =
      and_then_safe _ _ (read_index_safe (json.view v) i owner span) λ w. navigate_safe w segs owner

  eval_path_safe :
      (b : Bindings V) (r : Root) (segs : List Seg) (span : Span)
      → is_panic (eval_path json b r segs span) ≡ false
  unfolding eval_path is_panic
  eval_path_safe b Root.node segs span = navigate_safe b.node segs b.kind
  eval_path_safe b (Root.ancestor k) segs span =
      let found = navigate_safe (b.ancestor k) segs (ancestor_name k) in ground arith
  eval_path_safe b (Root.meta m) segs span =
      let found = navigate_safe (b.meta m) segs (codes "metadata") in ground arith

  collect_safe :
      {A : Type 0} (rs : List (Outcome A))
      → All (λ r. is_panic r ≡ false) rs
      → is_panic (collect rs) ≡ false
  unfolding collect is_panic
  collect_safe [] safe = refl
  collect_safe (r ∷ rs) (first, rest) =
      and_then_safe r _ first λ v. and_then_safe _ _ (collect_safe rs rest) λ vs. refl

  each_equality_safe :
      (l : View V) (vs : List V) (span : Span)
      → All (λ v. is_panic (equal_views json l (json.view v) span) ≡ false) vs
  each_equality_safe l [] span = tt
  each_equality_safe l (v ∷ vs) span =
      (equal_views_safe json l (json.view v) span, each_equality_safe l vs span)

  eval_in_safe :
      (l r : V) (span list_span : Span) → is_panic (eval_in json l r span list_span) ≡ false
  unfolding eval_in is_panic
  eval_in_safe l r span list_span =
      and_then_safe _ _ (items_of_safe json (json.view r) _ refl) λ vs.
        and_then_safe _ _ (any_item_safe json _ vs (each_equality_safe (json.view l) vs span))
          λ b. refl

  cat_texts_safe :
      (l r : V) (span : Span)
      → is_panic (
          and_then
            (stringify json (json.view l) span)
            λ a. and_then (stringify json (json.view r) span) λ b. ok (json.of_string (a ++ b)))
        ≡ false
  unfolding is_panic
  cat_texts_safe l r span =
      and_then_safe _ _ (stringify_safe json (json.view l) span)
        λ a. and_then_safe _ _ (stringify_safe json (json.view r) span) λ b. refl

  eval_cat_safe : (l r : V) (span : Span) → is_panic (eval_cat json l r span) ≡ false
  unfolding eval_cat is_panic
  eval_cat_safe l r span = let texts = cat_texts_safe l r span in ground arith

  length-eval_each : (b : Bindings V) (es : Exprs) → length (eval_each json b es) ≡ count_args es
  unfolding eval_each count_args
  length-eval_each b no_exprs = refl
  length-eval_each b (expr_and e es) = ap suc (length-eval_each b es)

  mutual
    unfolding eval CallsFit is_panic

    eval_safe :
        ItemsSmaller json
        → (b : Bindings V) (e : Expr) → CallsFit e
        → is_panic (eval json b e) ≡ false
    eval_safe smaller b (Expr.str s sp) fits = refl
    eval_safe smaller b (Expr.int n sp) fits = refl
    eval_safe smaller b (Expr.bool x sp) fits = refl
    eval_safe smaller b (Expr.null sp) fits = refl
    eval_safe smaller b (Expr.path r segs sp) fits = eval_path_safe b r segs sp
    eval_safe smaller b (Expr.call f args sp) (known, fits) =
        eval_call_safe json f (eval_each json b args) (spans_of args) sp
          (eval_each_safe smaller b args fits) (known ∙ ap some (sym (length-eval_each b args)))
    eval_safe smaller b (Expr.not e sp) fits =
        and_then_safe _ _ (eval_safe smaller b e fits)
          λ v. and_then_safe _ _ (as_bool_safe json v sp) λ x. refl
    eval_safe smaller b (Expr.and e f sp) (left, right) =
        and_then_safe _ _ (eval_safe smaller b e left) λ v.
          and_then_safe _ _ (as_bool_safe json v sp) λ x.
            if_safe x _ _
              (and_then_safe _ _ (eval_safe smaller b f right)
                λ w. and_then_safe _ _ (as_bool_safe json w sp) λ y. refl)
              refl
    eval_safe smaller b (Expr.or e f sp) (left, right) =
        and_then_safe _ _ (eval_safe smaller b e left) λ v.
          and_then_safe _ _ (as_bool_safe json v sp) λ x. if_safe x _ _ refl (
            and_then_safe _ _ (eval_safe smaller b f right)
              λ w. and_then_safe _ _ (as_bool_safe json w sp) λ y. refl)
    eval_safe smaller b (Expr.cat e f sp) (left, right) =
        and_then_safe _ _ (eval_safe smaller b e left)
          λ v. and_then_safe _ _ (eval_safe smaller b f right) λ w. eval_cat_safe v w sp
    eval_safe smaller b (Expr.rel op e f sp) (left, right) =
        and_then_safe _ _ (eval_safe smaller b e left) λ v.
          and_then_safe _ _ (eval_safe smaller b f right)
            λ w. and_then_safe _ _ (rel_safe json smaller op v w sp) λ x. refl
    eval_safe smaller b (Expr.in_list e f sp) (left, right) =
        and_then_safe _ _ (eval_safe smaller b e left)
          λ v. and_then_safe _ _ (eval_safe smaller b f right) λ w. eval_in_safe v w sp _
    eval_safe smaller b (Expr.list es sp) fits =
        and_then_safe _ _ (collect_safe _ (eval_each_safe smaller b es fits)) λ vs. refl

    eval_each_safe :
        ItemsSmaller json
        → (b : Bindings V) (es : Exprs) → CallsFitEach es
        → All (λ r. is_panic r ≡ false) (eval_each json b es)
    eval_each_safe smaller b no_exprs fits = tt
    eval_each_safe smaller b (expr_and e es) (first, rest) =
        (eval_safe smaller b e first, eval_each_safe smaller b es rest)

  stem_text_safe : (w : View V) (span : Span) → is_panic (stem_text json w span) ≡ false
  unfolding stem_text is_panic view_as_str
  stem_text_safe View.null span = refl
  stem_text_safe (View.bool b) span = refl
  stem_text_safe (View.number n s) span = refl
  stem_text_safe (View.string s) span = refl
  stem_text_safe (View.array vs) span = refl
  stem_text_safe (View.object f) span = ground arith

  check_stem_safe : (s : List ℕ) (span : Span) → is_panic (check_stem json s span) ≡ false
  unfolding check_stem is_panic
  check_stem_safe [] span = refl
  check_stem_safe (c ∷ s) span = ground arith

  bool_of_view_safe : (w : View V) (span : Span) → is_panic (bool_of_view json w span) ≡ false
  unfolding bool_of_view is_panic
  bool_of_view_safe View.null span = refl
  bool_of_view_safe (View.bool b) span = refl
  bool_of_view_safe (View.number n s) span = refl
  bool_of_view_safe (View.string s) span = refl
  bool_of_view_safe (View.array vs) span = refl
  bool_of_view_safe (View.object f) span = refl

  -- Where each call is of a function of the table with as many arguments as the table says, and the
  -- items of a list are smaller than the list, neither `eval` nor `eval_bool` nor `eval_stem` panics or
  -- runs out of the fuel for lists of lists: each gives a value or a diagnostic.
  pub is_panic-eval :
      ItemsSmaller json
      → (b : Bindings V) (e : Expr) → CallsFit e
      → (is_panic (eval json b e) ≡ false)
        × (is_panic (eval_bool json b e) ≡ false)
        × (is_panic (eval_stem json b e) ≡ false)
  unfolding eval_bool eval_stem
  is_panic-eval smaller b e fits =
      let safe = eval_safe smaller b e fits in
      (
        safe,
        and_then_safe _ _ safe (λ v. bool_of_view_safe (json.view v) _),
        and_then_safe _ _ safe
            (λ v. and_then_safe _ _ (stem_text_safe (json.view v) _) λ s. check_stem_safe s _),
      )
