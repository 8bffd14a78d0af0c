-- ===== src/Query/Panics/Calls.antt =====
-- fpp_query/src/query/parse.rs: the table of functions; eval.rs: calls with as many arguments as it says.
use fpp_tools.Prelude.{
  ℕ, ◌≡◌, refl, true, false, List, [], ◌∷◌, Option, none, some, if◌then◌else◌, All, length, arith,
}
use fpp_tools.Lexer.Keywords.Table.{codes}
use fpp_tools.Query.Ast.{Span, same_text}
use fpp_tools.Query.Values.{View, Json, lower_char, upper_char}
use fpp_tools.Query.Eval.{Outcome, as_str, view_as_str}
use fpp_tools.Query.Expr.{
  length_of, items_of, texts_of, replace_in, call_len, call_case, call_replace, call_join,
  eval_call,
}
use fpp_tools.Query.Panics.Relations.{is_panic, and_then_safe, view_as_str_safe}

-- `Function`, without its help, and the table `FUNCTIONS`.
pub record Function : Type 0 where
  pub name : List ℕ
  pub arity : ℕ

abbrev pub functions : List Function
functions =
    record { name = codes "len"; arity = 1 }
    ∷ record { name = codes "lower"; arity = 1 }
    ∷ record { name = codes "upper"; arity = 1 }
    ∷ record { name = codes "join"; arity = 2 }
    ∷ record { name = codes "replace"; arity = 3 }
    ∷ []

-- The arity of the function that `FUNCTIONS.iter().find` finds.
unfoldable pub arity_in : List Function → List ℕ → Option ℕ
unfolding same_text
arity_in [] name = none
arity_in (f ∷ fs) name =
    let rest = arity_in fs name in if same_text name f.name then some f.arity else rest

replace_not_join :
    (name : List ℕ)
    → same_text name (codes "replace") ≡ true
    → same_text name (codes "join") ≡ false
unfolding same_text
replace_not_join [] is_replace = refl
replace_not_join (c ∷ s) is_replace = ground arith

module _ {V : Type 0} (json : Json V) where
  pub as_str_safe :
      (v : V) (span : Span) (what : List ℕ) → is_panic (as_str json v span what) ≡ false
  unfolding as_str
  as_str_safe v span what = view_as_str_safe json (json.view v) span what

  pub length_of_safe : (w : View V) (span : Span) → is_panic (length_of json w span) ≡ false
  unfolding length_of is_panic view_as_str
  length_of_safe (View.array vs) span = refl
  length_of_safe View.null span = refl
  length_of_safe (View.bool b) span = refl
  length_of_safe (View.number n s) span = refl
  length_of_safe (View.string s) span = refl
  length_of_safe (View.object f) span = ground arith

  pub items_of_safe :
      (w : View V) (missing : Outcome (List V))
      → is_panic missing ≡ false
      → is_panic (items_of json w missing) ≡ false
  unfolding items_of is_panic
  items_of_safe (View.array vs) missing safe = refl
  items_of_safe View.null missing safe = safe
  items_of_safe (View.bool b) missing safe = safe
  items_of_safe (View.number n s) missing safe = safe
  items_of_safe (View.string s) missing safe = safe
  items_of_safe (View.object f) missing safe = safe

  pub texts_of_safe : (vs : List V) (span : Span) → is_panic (texts_of json vs span) ≡ false
  unfolding texts_of is_panic
  texts_of_safe [] span = refl
  texts_of_safe (v ∷ vs) span =
      and_then_safe _ _ (as_str_safe v span _)
        λ s. and_then_safe _ _ (texts_of_safe vs span) λ ss. refl

  pub call_len_safe :
      (r : Outcome V) (spans : List Span) (span : Span)
      → is_panic r ≡ false
      → is_panic (call_len json (r ∷ []) spans span) ≡ false
  unfolding call_len is_panic
  call_len_safe r spans span safe =
      and_then_safe r _ safe λ v. and_then_safe _ _ (length_of_safe (json.view v) _) λ n. refl

  pub call_case_safe :
      (name : List ℕ) (f : ℕ → ℕ) (r : Outcome V) (spans : List Span) (span : Span)
      → is_panic r ≡ false
      → is_panic (call_case json name f (r ∷ []) spans span) ≡ false
  unfolding call_case is_panic
  call_case_safe name f r spans span safe =
      and_then_safe r _ safe λ v. and_then_safe _ _ (as_str_safe v _ name) λ s. refl

  pub call_join_safe :
      (r s : Outcome V) (spans : List Span) (span : Span)
      → is_panic r ≡ false
      → is_panic s ≡ false
      → is_panic (call_join json (r ∷ s ∷ []) spans span) ≡ false
  unfolding call_join is_panic
  call_join_safe r s spans span safe also = and_then_safe r _ safe λ v. and_then_safe s _ also λ w.
      and_then_safe _ _ (as_str_safe w _ (codes "join")) λ sep.
        and_then_safe _ _ (items_of_safe (json.view v) _ refl)
          λ vs. and_then_safe _ _ (texts_of_safe vs _) λ texts. refl

  replace_in_safe :
      (subject from : List ℕ) (to : Outcome (List ℕ)) (span : Span)
      → is_panic to ≡ false
      → is_panic (replace_in json subject from to span) ≡ false
  unfolding replace_in is_panic
  replace_in_safe subject [] to span safe = refl
  replace_in_safe subject (c ∷ from) to span safe = and_then_safe to _ safe λ t. refl

  pub call_replace_safe :
      (r s t : Outcome V) (spans : List Span) (span : Span)
      → is_panic r ≡ false
      → is_panic s ≡ false
      → is_panic t ≡ false
      → is_panic (call_replace json (r ∷ s ∷ t ∷ []) spans span) ≡ false
  unfolding call_replace is_panic
  call_replace_safe r s t spans span safe also last = and_then_safe r _ safe λ v.
      and_then_safe s _ also λ w. and_then_safe t _ last λ x.
        and_then_safe _ _ (as_str_safe v _ (codes "replace")) λ subject.
          and_then_safe _ _ (as_str_safe w _ (codes "replace"))
            λ from. replace_in_safe subject from _ _ (as_str_safe x _ (codes "replace"))

  pub eval_call_safe :
      (name : List ℕ) (rs : List (Outcome V)) (spans : List Span) (span : Span)
      → All (λ r. is_panic r ≡ false) rs
      → arity_in functions name ≡ some (length rs)
      → is_panic (eval_call json name rs spans span) ≡ false
  unfolding eval_call is_panic arity_in
  eval_call_safe name [] spans span safe fits = ground arith
  eval_call_safe name (r ∷ []) spans span (first, rest) fits =
      let len = call_len_safe r spans span first in
      let lower = call_case_safe name lower_char r spans span first in
      let upper = call_case_safe name upper_char r spans span first in ground arith
  eval_call_safe name (r ∷ s ∷ []) spans span (first, (second, rest)) fits =
      let join = call_join_safe r s spans span first second in
      let only_one = replace_not_join name in ground arith
  eval_call_safe name (r ∷ s ∷ t ∷ []) spans span (first, (second, (third, rest))) fits =
      let replace = call_replace_safe r s t spans span first second third in ground arith
  eval_call_safe name (r ∷ s ∷ t ∷ u ∷ rs) spans span safe fits = ground arith
