-- ===== src/Examples/Queries.antt =====
-- The query language at concrete texts.
use fpp_tools.Prelude.{
  ℕ, suc, ◌+◌, ◌<◌, ◌≡◌, ◌↔◌, refl, ap, subst, ℤ, pos, Bool, true, false, List, [], ◌∷◌, Option,
  none, some, if◌then◌else◌, All, ok, arith,
}
use fpp_tools.Lexer.Keywords.Table.{codes}
use fpp_tools.Query.Glob.{glob_match}
use fpp_tools.Query.Glob.Pieces.{pieces, Matches}
use fpp_tools.Query.Glob.Decides.{glob_match_iff}
use fpp_tools.Query.Ast.{
  Span, RelOp, Root, Seg, Expr, no_exprs, expr_and, same_text, same_kind, has_kind, union,
  needs_of,
}
use fpp_tools.Query.Values.{View, Json, Bindings}
use fpp_tools.Query.Expr.{eval, eval_bool, eval_stem}
use fpp_tools.Query.Stems.{IsStem, TextOf, eval_stem_iff}
use fpp_tools.Query.Needs.Agree.{AgreeOn}
use fpp_tools.Query.Needs.Union.{eval-union}
use fpp_tools.Query.Panics.Relations.{ItemsSmaller, is_panic}
use fpp_tools.Query.Panics.Queries.{CallsFit, is_panic-eval}

-- The source's own tests.
glob_backtracks : glob_match (codes "a*b*c") (codes "axxbyyc") ≡ true
unfolding glob_match
glob_backtracks = refl

glob_escaped : glob_match (codes "\\**") (codes "*x") ≡ true
unfolding glob_match
glob_escaped = refl

glob_too_short : glob_match (codes "Foo?") (codes "Foo") ≡ false
unfolding glob_match
glob_too_short = refl

glob_match_iff_example :
    (glob_match (codes "a*b*c") (codes "axxbyyc") ≡ true)
    ↔ Matches (pieces (codes "a*b*c")) (codes "axxbyyc")
glob_match_iff_example = glob_match_iff (codes "a*b*c") (codes "axxbyyc")

-- Values whose records have one field.
mutual
  data JsonValue : Type 0 where
    null : JsonValue
    flag : Bool → JsonValue
    number : ℤ → JsonValue
    text : List ℕ → JsonValue
    items : Values → JsonValue
    record_of : List ℕ → JsonValue → JsonValue

  data Values : Type 0 where
    no_values : Values
    value_and : JsonValue → Values → Values

abbrev to_list : Values → List JsonValue
to_list no_values = []
to_list (value_and v vs) = v ∷ to_list vs

abbrev of_list : List JsonValue → Values
of_list [] = no_values
of_list (v ∷ vs) = value_and v (of_list vs)

abbrev view_of : JsonValue → View JsonValue
view_of null = View.null
view_of (flag b) = View.bool b
view_of (number n) = View.number (some n) (codes "7")
view_of (text s) = View.string s
view_of (items vs) = View.array (to_list vs)
view_of (record_of key v) = View.object (λ k. if same_text k key then some v else none)

unfoldable mutual
  size_of : JsonValue → ℕ
  size_of null = 0
  size_of (flag b) = 0
  size_of (number n) = 0
  size_of (text s) = 0
  size_of (items vs) = suc (total vs)
  size_of (record_of key v) = suc (size_of v)

  total : Values → ℕ
  total no_values = 0
  total (value_and v vs) = size_of v + total vs

abbrev values : Json JsonValue
unfolding size_of same_text
values = record {
  view = view_of;
  of_null = null;
  of_bool = flag;
  of_int = number;
  of_string = text;
  of_array = λ vs. items (of_list vs);
  size = size_of;
}

each_smaller : (vs : Values) (n : ℕ) → total vs < n → All (λ w. size_of w < n) (to_list vs)
unfolding size_of
each_smaller no_values n enough = tt
each_smaller (value_and v vs) n enough = (omega arith, each_smaller vs n (omega arith))

abbrev items_in : View JsonValue → List JsonValue
items_in (View.array vs) = vs
items_in w = []

items_smaller : (v : JsonValue) → All (λ w. size_of w < size_of v) (items_in (view_of v))
unfolding size_of
items_smaller null = tt
items_smaller (flag b) = tt
items_smaller (number n) = tt
items_smaller (text s) = tt
items_smaller (record_of key v) = tt
items_smaller (items ws) = each_smaller ws (suc (total ws)) (omega arith)

values-ItemsSmaller : ItemsSmaller values
unfolding size_of values
values-ItemsSmaller v vs is_array =
    subst (All (λ w. size_of w < size_of v)) (ap items_in is_array) (items_smaller v)

abbrev somewhere : Span
somewhere = record { start = 0; len = 1 }

abbrev name_path : Expr
name_path = Expr.path Root.node (Seg.field (codes "name") somewhere ∷ []) somewhere

-- `len($.name) == 3 && $.name matches "F*"`
abbrev short_name : Expr
short_name =
    Expr.and
      (Expr.rel RelOp.eq (Expr.call (codes "len") (expr_and name_path no_exprs) somewhere)
        (Expr.int (pos 3) somewhere) somewhere)
      (Expr.rel RelOp.matches name_path (Expr.str (codes "F*") somewhere) somewhere) somewhere

-- `$^ != null`
abbrev has_parent : Expr
has_parent =
    Expr.rel RelOp.ne (Expr.path (Root.ancestor none) [] somewhere) (Expr.null somewhere) somewhere

-- A node named "Foo", with another ancestor of kind "DefModule" in the second.
abbrev foo : Bindings JsonValue
foo = record {
  kind = codes "DefTopology";
  node = record_of (codes "name") (text (codes "Foo"));
  ancestor = λ k. null;
  meta = λ m. null;
}

abbrev foo_in_module : Bindings JsonValue
unfolding same_kind
foo_in_module = record foo {
  ancestor = λ k. if same_kind k (some (codes "DefModule")) then flag true else null;
}

short_of_foo : eval_bool values foo short_name ≡ ok true
unfolding eval_bool size_of same_text
short_of_foo = refl

parent_of_foo : eval_bool values foo has_parent ≡ ok false
unfolding eval_bool size_of same_text
parent_of_foo = refl

short_name_fits : CallsFit short_name
unfolding CallsFit
short_name_fits = (((refl, (tt, tt)), tt), (tt, tt))

is_panic-eval_example :
    (is_panic (eval values foo short_name) ≡ false)
    × (is_panic (eval_bool values foo short_name) ≡ false)
    × (is_panic (eval_stem values foo short_name) ≡ false)
is_panic-eval_example = is_panic-eval values values-ItemsSmaller foo short_name short_name_fits

same_parents :
    (k : Option (List ℕ))
    → has_kind k (none ∷ []) ≡ true
    → foo.ancestor k ≡ foo_in_module.ancestor k
unfolding has_kind
same_parents none found = refl
same_parents (some t) found = ground arith

foo_agrees : AgreeOn (union (needs_of short_name ∷ needs_of has_parent ∷ [])) foo foo_in_module
unfolding union needs_of
foo_agrees = record {
  kind_agrees = refl;
  meta_agrees = refl;
  node_agrees = λ needed. refl;
  ancestor_agrees = same_parents;
}

eval-union_example :
    All (λ e. eval values foo e ≡ eval values foo_in_module e) (short_name ∷ has_parent ∷ [])
unfolding union needs_of
eval-union_example = eval-union values foo foo_in_module (short_name ∷ has_parent ∷ []) foo_agrees

eval_stem_iff_example :
    (eval_stem values foo name_path ≡ ok (codes "Foo"))
    ↔ ((v : JsonValue) × (eval values foo name_path ≡ ok v)
      × TextOf values (values.view v) (codes "Foo")
      × IsStem (codes "Foo"))
eval_stem_iff_example = eval_stem_iff values foo name_path (codes "Foo")

name_is_stem : eval_stem values foo name_path ≡ ok (codes "Foo")
unfolding eval_stem size_of same_text
name_is_stem = refl
