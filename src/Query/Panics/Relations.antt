-- ===== src/Query/Panics/Relations.antt =====
-- fpp_query/src/query/eval.rs: relations, and what they are made of, do not panic.
use fpp_tools.Prelude.{
  ℕ, suc, zero, ◌≡◌, ◌<◌, refl, Bool, true, false, List, [], ◌∷◌, if◌then◌else◌, All, ok, err,
  and_then, arith,
}
use fpp_tools.Lexer.Keywords.Table.{codes}
use fpp_tools.Query.Ast.{Span, RelOp, lifts_over_lists}
use fpp_tools.Query.Values.{View, Json, Failure, compare_texts, cannot_compare}
use fpp_tools.Query.Eval.{
  Outcome, as_bool, view_as_str, equal_views, equal_texts, with_texts, ordered, rel_views, any_item,
  over_items, rel_loop, rel, stringify, holds_for, fail, describe_view, texts_equal, spelling,
}

unfoldable pub is_panic : {A : Type 0} → Outcome A → Bool
is_panic (ok a) = false
is_panic (err Failure.panicked) = true
is_panic (err (Failure.diagnosed span m)) = false

pub and_then_safe :
    {A B : Type 0} (m : Outcome A) (f : A → Outcome B)
    → is_panic m ≡ false
    → ((a : A) → is_panic (f a) ≡ false)
    → is_panic (and_then m f) ≡ false
unfolding is_panic
and_then_safe (ok a) f safe rest = rest a
and_then_safe (err (Failure.diagnosed span m)) f safe rest = refl
and_then_safe (err Failure.panicked) f safe rest = safe

pub if_safe :
    {A : Type 0} (c : Bool) (a b : Outcome A)
    → is_panic a ≡ false
    → is_panic b ≡ false
    → is_panic (if c then a else b) ≡ false
if_safe true a b safe other = safe
if_safe false a b safe other = other

module _ {V : Type 0} (json : Json V) where
  pub view_as_str_safe :
      (w : View V) (span : Span) (what : List ℕ) → is_panic (view_as_str json w span what) ≡ false
  unfolding is_panic view_as_str
  view_as_str_safe View.null span what = refl
  view_as_str_safe (View.bool b) span what = refl
  view_as_str_safe (View.number n s) span what = refl
  view_as_str_safe (View.string s) span what = refl
  view_as_str_safe (View.array vs) span what = refl
  view_as_str_safe (View.object f) span what = ground arith

  pub as_bool_safe : (v : V) (span : Span) → is_panic (as_bool json v span) ≡ false
  unfolding is_panic as_bool
  as_bool_safe v span = ground arith

  pub stringify_safe : (w : View V) (span : Span) → is_panic (stringify json w span) ≡ false
  unfolding is_panic stringify
  stringify_safe View.null span = refl
  stringify_safe (View.bool b) span = refl
  stringify_safe (View.number n s) span = refl
  stringify_safe (View.string s) span = refl
  stringify_safe (View.array vs) span = refl
  stringify_safe (View.object f) span = view_as_str_safe (View.object f) span _

  pub both_safe :
      (l r : View V) (span : Span) (what : List ℕ) (f : List ℕ → List ℕ → Bool)
      → is_panic {A = Bool} (
          and_then
            (view_as_str json l span what)
            λ a. and_then (view_as_str json r span what) λ b. ok (f a b))
        ≡ false
  unfolding is_panic
  both_safe l r span what f =
      and_then_safe _ _ (view_as_str_safe l span what)
        λ a. and_then_safe _ _ (view_as_str_safe r span what) λ b. refl

  pub with_texts_safe :
      (op : RelOp) (l r : View V) (span : Span) (f : List ℕ → List ℕ → Bool)
      → is_panic (with_texts json op l r span f) ≡ false
  unfolding with_texts is_panic
  with_texts_safe op l r span f = both_safe l r span (spelling op) f

  pub ordered_safe :
      (op : RelOp) (l r : View V) (span : Span) → is_panic (ordered json op l r span) ≡ false
  unfolding ordered is_panic
  ordered_safe op l r span =
      let by_text = with_texts_safe op l r span (λ a b. holds_for op (compare_texts a b)) in
      ground arith

  pub equal_texts_safe : (l r : View V) (span : Span) → is_panic (equal_texts json l r span) ≡ false
  unfolding equal_texts is_panic
  equal_texts_safe l r span =
      if_safe {A = Bool} _
        (fail span (cannot_compare (describe_view json l) (describe_view json r))) _ refl
        (both_safe l r span (codes "==") λ a b. texts_equal (compare_texts a b))

  pub equal_views_safe : (l r : View V) (span : Span) → is_panic (equal_views json l r span) ≡ false
  unfolding equal_views is_panic
  equal_views_safe l r span = let by_text = equal_texts_safe l r span in ground arith

  pub rel_views_safe :
      (op : RelOp) (l r : View V) (span : Span) → is_panic (rel_views json op l r span) ≡ false
  unfolding rel_views is_panic
  rel_views_safe RelOp.eq l r span = equal_views_safe l r span
  rel_views_safe RelOp.ne l r span = and_then_safe _ _ (equal_views_safe l r span) λ b. refl
  rel_views_safe RelOp.lt l r span = ordered_safe RelOp.lt l r span
  rel_views_safe RelOp.le l r span = ordered_safe RelOp.le l r span
  rel_views_safe RelOp.gt l r span = ordered_safe RelOp.gt l r span
  rel_views_safe RelOp.ge l r span = ordered_safe RelOp.ge l r span
  rel_views_safe RelOp.contains l r span = with_texts_safe RelOp.contains l r span _
  rel_views_safe RelOp.starts_with l r span = with_texts_safe RelOp.starts_with l r span _
  rel_views_safe RelOp.ends_with l r span = with_texts_safe RelOp.ends_with l r span _
  rel_views_safe RelOp.matches l r span = with_texts_safe RelOp.matches l r span _

  pub any_item_safe :
      (f : V → Outcome Bool) (vs : List V)
      → All (λ v. is_panic (f v) ≡ false) vs
      → is_panic (any_item json f vs) ≡ false
  unfolding any_item is_panic
  any_item_safe f [] safe = refl
  any_item_safe f (v ∷ vs) (first, rest) =
      and_then_safe _ _ first λ b. if_safe b _ _ refl (any_item_safe f vs rest)

  pub over_items_safe :
      (w : View V) (lifted : List V → Outcome Bool) (plain : Outcome Bool)
      → ((vs : List V) → w ≡ View.array vs → is_panic (lifted vs) ≡ false)
      → is_panic plain ≡ false
      → is_panic (over_items json w lifted plain) ≡ false
  unfolding over_items
  over_items_safe (View.array vs) lifted plain items safe = items vs refl
  over_items_safe View.null lifted plain items safe = safe
  over_items_safe (View.bool b) lifted plain items safe = safe
  over_items_safe (View.number n s) lifted plain items safe = safe
  over_items_safe (View.string s) lifted plain items safe = safe
  over_items_safe (View.object f) lifted plain items safe = safe

  -- The items of a list are smaller than the list.
  abbrev pub ItemsSmaller : Type 0
  ItemsSmaller =
      (v : V) (vs : List V) → json.view v ≡ View.array vs → All (λ w. json.size w < json.size v) vs

  each_of_smaller :
      (fuel n : ℕ) (vs : List V) (P : V → Type 0)
      → n < suc fuel
      → ((v : V) → json.size v < fuel → P v)
      → All (λ w. json.size w < n) vs
      → All P vs
  each_of_smaller fuel n [] P enough here small = tt
  each_of_smaller fuel n (v ∷ vs) P enough here (first, rest) =
      (here v (omega arith), each_of_smaller fuel n vs P enough here rest)

  pub rel_loop_safe :
      ItemsSmaller
      → (fuel : ℕ) (op : RelOp) (l r : V) (span : Span) → json.size l < fuel
      → is_panic (rel_loop json fuel op l r span) ≡ false
  unfolding rel_loop
  rel_loop_safe smaller zero op l r span enough = ground arith
  rel_loop_safe smaller (suc fuel) op l r span enough =
      let plain = rel_views_safe op (json.view l) (json.view r) span in
      if_safe (lifts_over_lists op) _ _
        (over_items_safe (json.view l) _ _
          (λ vs is_array. any_item_safe _ vs (
            each_of_smaller fuel (json.size l) vs _ enough
              (λ v small. rel_loop_safe smaller fuel op v r span small) (smaller l vs is_array)))
          plain)
        plain

  pub rel_safe :
      ItemsSmaller → (op : RelOp) (l r : V) (span : Span) → is_panic (rel json op l r span) ≡ false
  unfolding rel
  rel_safe smaller op l r span = rel_loop_safe smaller (suc (json.size l)) op l r span (omega arith)
