-- ===== src/Query/Expr.antt =====
-- fpp_query/src/query/eval.rs: paths, calls and expressions, and the two entry points.
use fpp_tools.Prelude.{
  ℕ, pos, ◌+ℤ◌, Bool, true, false, not, ◌&&◌, List, [], ◌∷◌, ◌++◌, map, Option, none, some,
  if◌then◌else◌, ok, err, and_then, length, get_elem?,
}
use fpp_tools.Lexer.Keywords.Table.{codes}
use fpp_tools.Query.Ast.{
  Span, Root, Seg, field, index, Expr, Exprs, span_of, same_text, no_exprs, expr_and,
}
use fpp_tools.Query.Values.{
  View, Json, query_not_bool, in_needs_list, join_needs_list, not_an_index, no_enclosing, no_record,
  no_field, out_of_range, empty_pattern, empty_stem, bad_stem, unknown_function, panicked, Bindings,
  lower_char, upper_char, replace_text, join_texts, saturate, bad_filename_char,
}
use fpp_tools.Query.Eval.{
  Outcome, fail, describe_view, as_bool, view_as_str, as_str, stringify, as_i64, is_null,
  equal_views, any_item, rel,
}

abbrev pub no_segs : List Seg → Bool
no_segs [] = true
no_segs (s ∷ segs) = false

-- The name of an ancestor in messages.
abbrev pub ancestor_name : Option (List ℕ) → List ℕ
ancestor_name none = codes "the enclosing node"
ancestor_name (some k) = k

unfoldable pub spans_of : Exprs → List Span
unfolding span_of
spans_of no_exprs = []
spans_of (expr_and e es) = span_of e ∷ spans_of es

-- The span of an argument; that of the call where there is no such argument.
abbrev pub span_at : List Span → ℕ → Span → Span
span_at spans i call = elim (get_elem? spans i) [ none ↦ call | some s ↦ s ]

-- An argument that is not there is an index out of range.
abbrev pub arg : {A : Type 0} → List (Outcome A) → ℕ → Outcome A
arg results i = elim (get_elem? results i) [ none ↦ err panicked | some r ↦ r ]

-- The items of a list literal, in order, up to the first failure.
unfoldable pub collect : {A : Type 0} → List (Outcome A) → Outcome (List A)
collect [] = ok []
collect (r ∷ rs) = let rest = collect rs in and_then r λ v. and_then rest λ vs. ok (v ∷ vs)

module _ {V : Type 0} (json : Json V) where
  -- One step of a path, which needs a record or a list.
  unfoldable pub read_field : View V → List ℕ → List ℕ → Span → Outcome V
  unfolding describe_view
  read_field (View.object get) name owner span = elim (get name) [
    | none ↦ fail span (no_field owner name)
    | some v ↦ ok v
  ]
  read_field w name owner span = fail span (no_record name owner (describe_view json w))

  unfoldable pub read_index : View V → ℕ → List ℕ → Span → Outcome V
  unfolding describe_view
  read_index (View.array vs) i owner span = elim (get_elem? vs i) [
    | none ↦ fail span (out_of_range i owner (length vs))
    | some v ↦ ok v
  ]
  read_index w i owner span = fail span (not_an_index (describe_view json w))

  unfoldable pub navigate : V → List Seg → List ℕ → Outcome V
  unfolding read_field read_index
  navigate cur [] owner = ok cur
  navigate cur (field name span ∷ segs) owner =
      and_then (read_field (json.view cur) name owner span) λ v. navigate v segs name
  navigate cur (index i span ∷ segs) owner =
      and_then (read_index (json.view cur) i owner span) λ v. navigate v segs owner

  unfoldable pub eval_path : Bindings V → Root → List Seg → Span → Outcome V
  unfolding navigate
  eval_path b Root.node segs span = navigate b.node segs b.kind
  eval_path b (Root.ancestor k) segs span =
      let found = navigate (b.ancestor k) segs (ancestor_name k) in
      if is_null json (json.view (b.ancestor k)) && not (no_segs segs)
      then fail span (no_enclosing k)
      else found
  eval_path b (Root.meta m) segs span =
      let found = navigate (b.meta m) segs (codes "metadata") in
      if no_segs segs then ok (b.meta m) else found

  unfoldable pub length_of : View V → Span → Outcome ℕ
  unfolding view_as_str
  length_of (View.array vs) span = ok (length vs)
  length_of v span = and_then (view_as_str json v span (codes "len")) λ s. ok (length s)

  -- The items of a list, or the failure that there is none.
  unfoldable pub items_of : View V → Outcome (List V) → Outcome (List V)
  items_of (View.array vs) missing = ok vs
  items_of v missing = missing

  unfoldable pub texts_of : List V → Span → Outcome (List (List ℕ))
  unfolding as_str
  texts_of [] span = ok []
  texts_of (v ∷ vs) span =
      let rest = texts_of vs span in
      and_then (as_str json v span (codes "join")) λ s. and_then rest λ ss. ok (s ∷ ss)

  -- The end of `replace`: the text to look for is tested before the one to put there.
  unfoldable pub replace_in : List ℕ → List ℕ → Outcome (List ℕ) → Span → Outcome V
  unfolding replace_text
  replace_in subject [] to span = fail span empty_pattern
  replace_in subject (c ∷ from) to span =
      and_then to λ t. ok (json.of_string (replace_text (c ∷ from) t 0 subject))

  unfoldable pub call_len : List (Outcome V) → List Span → Span → Outcome V
  unfolding length_of
  call_len args spans span =
      and_then (arg args 0)
        λ v. and_then (length_of (json.view v) (span_at spans 0 span)) λ n. ok (json.of_int (pos n))

  unfoldable pub call_case : List ℕ → (ℕ → ℕ) → List (Outcome V) → List Span → Span → Outcome V
  unfolding as_str
  call_case name f args spans span =
      and_then (arg args 0)
        λ v. and_then (as_str json v (span_at spans 0 span) name) λ s. ok (json.of_string (map f s))

  unfoldable pub call_replace : List (Outcome V) → List Span → Span → Outcome V
  unfolding as_str replace_in
  call_replace args spans span =
      let name = codes "replace" in
      and_then (arg args 0) λ v. and_then (arg args 1) λ w. and_then (arg args 2) λ x.
        and_then (as_str json v (span_at spans 0 span) name) λ subject.
          and_then (as_str json w (span_at spans 1 span) name) λ from.
            replace_in subject from (as_str json x (span_at spans 2 span) name)
              (span_at spans 1 span)

  unfoldable pub call_join : List (Outcome V) → List Span → Span → Outcome V
  unfolding as_str describe_view items_of texts_of join_texts
  call_join args spans span = and_then (arg args 0) λ v. and_then (arg args 1) λ w.
      and_then (as_str json w (span_at spans 1 span) (codes "join")) λ sep.
        and_then
          (items_of (json.view v)
            (fail (span_at spans 0 span) (join_needs_list (describe_view json (json.view v)))))
          λ vs.
            and_then (texts_of vs (span_at spans 0 span))
              λ texts. ok (json.of_string (join_texts sep texts))

  unfoldable pub eval_call : List ℕ → List (Outcome V) → List Span → Span → Outcome V
  unfolding call_len call_case call_replace call_join same_text
  eval_call name args spans span =
      if same_text name (codes "len")
      then call_len args spans span
      else if same_text name (codes "lower")
      then call_case name lower_char args spans span
      else if same_text name (codes "upper")
      then call_case name upper_char args spans span
      else if same_text name (codes "replace")
      then call_replace args spans span
      else if same_text name (codes "join")
      then call_join args spans span
      else fail span (unknown_function name)

  unfoldable pub eval_cat : V → V → Span → Outcome V
  unfolding stringify
  eval_cat l r span =
      let texts =
        and_then (stringify json (json.view l) span)
          λ s. and_then (stringify json (json.view r) span) λ t. ok (json.of_string (s ++ t)) in
      elim (as_i64 json (json.view l)) as (λ o. Outcome V) [
        | none ↦ texts
        | some x ↦ (elim (as_i64 json (json.view r)) as (λ o. Outcome V) [
          | none ↦ texts
          | some y ↦ ok (json.of_int (saturate (x +ℤ y)))
        ])
      ]

  unfoldable pub eval_in : V → V → Span → Span → Outcome V
  unfolding items_of describe_view any_item equal_views
  eval_in l r span list_span =
      and_then
        (items_of (json.view r) (fail list_span (in_needs_list (describe_view json (json.view r)))))
        λ vs.
          and_then (any_item json (λ v. equal_views json (json.view l) (json.view v) span) vs)
            λ b. ok (json.of_bool b)

  unfoldable mutual
    unfolding eval_path eval_call eval_cat eval_in as_bool rel collect spans_of span_of

    pub eval : Bindings V → Expr → Outcome V
    eval b (Expr.str s sp) = ok (json.of_string s)
    eval b (Expr.int n sp) = ok (json.of_int n)
    eval b (Expr.bool x sp) = ok (json.of_bool x)
    eval b (Expr.null sp) = ok json.of_null
    eval b (Expr.path root segs sp) = eval_path b root segs sp
    eval b (Expr.call name args sp) = eval_call name (eval_each b args) (spans_of args) sp
    eval b (Expr.not e sp) =
        and_then (eval b e) λ v. and_then (as_bool json v sp) λ x. ok (json.of_bool (not x))
    eval b (Expr.and e f sp) =
        let rhs = and_then (eval b f) λ w. and_then (as_bool json w sp) λ y. ok (json.of_bool y) in
        and_then (eval b e)
          λ v. and_then (as_bool json v sp) λ x. if x then rhs else ok (json.of_bool false)
    eval b (Expr.or e f sp) =
        let rhs = and_then (eval b f) λ w. and_then (as_bool json w sp) λ y. ok (json.of_bool y) in
        and_then (eval b e)
          λ v. and_then (as_bool json v sp) λ x. if x then ok (json.of_bool true) else rhs
    eval b (Expr.cat e f sp) =
        let rhs = eval b f in and_then (eval b e) λ v. and_then rhs λ w. eval_cat v w sp
    eval b (Expr.rel op e f sp) =
        let rhs = eval b f in
        and_then (eval b e)
          λ v. and_then rhs λ w. and_then (rel json op v w sp) λ x. ok (json.of_bool x)
    eval b (Expr.in_list e f sp) =
        let rhs = eval b f in and_then (eval b e) λ v. and_then rhs λ w. eval_in v w sp (span_of f)
    eval b (Expr.list es sp) = and_then (collect (eval_each b es)) λ vs. ok (json.of_array vs)

    pub eval_each : Bindings V → Exprs → List (Outcome V)
    eval_each b no_exprs = []
    eval_each b (expr_and e es) = eval b e ∷ eval_each b es

  -- `eval_bool` and `eval_stem`.
  unfoldable pub bool_of_view : View V → Span → Outcome Bool
  unfolding describe_view
  bool_of_view (View.bool b) span = ok b
  bool_of_view v span = fail span (query_not_bool (describe_view json v))

  unfoldable pub eval_bool : Bindings V → Expr → Outcome Bool
  unfolding eval bool_of_view span_of
  eval_bool b e = and_then (eval b e) λ v. bool_of_view (json.view v) (span_of e)

  unfoldable pub stem_text : View V → Span → Outcome (List ℕ)
  unfolding view_as_str
  stem_text (View.number n s) span = ok s
  stem_text v span = view_as_str json v span (codes "a filename stem")

  unfoldable pub check_stem : List ℕ → Span → Outcome (List ℕ)
  unfolding bad_filename_char
  check_stem [] span = fail span empty_stem
  check_stem (c ∷ s) span = elim (bad_filename_char (c ∷ s)) [
    | none ↦ ok (c ∷ s)
    | some bad ↦ fail span (bad_stem bad)
  ]

  unfoldable pub eval_stem : Bindings V → Expr → Outcome (List ℕ)
  unfolding eval stem_text check_stem span_of
  eval_stem b e =
      and_then (eval b e)
        λ v. and_then (stem_text (json.view v) (span_of e)) λ s. check_stem s (span_of e)
