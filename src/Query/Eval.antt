-- ===== src/Query/Eval.antt =====
-- fpp_query/src/query/eval.rs: the evaluation of queries.
use Prim.Native.Nat.{Ordering}
use fpp_tools.Prelude.{
  ℕ, zero, suc, ℤ, ◌==ℤ◌, leb_ℤ, Bool, true, false, not, ◌&&◌, ◌||◌, List, [], ◌∷◌, Option, none,
  some, if◌then◌else◌, Result, ok, err, and_then, length,
}
use fpp_tools.Lexer.Keywords.Table.{codes}
use fpp_tools.Query.Ast.{Span, RelOp, lifts_over_lists}
use fpp_tools.Query.Values.{
  View, Json, Found, found_nothing, found_bool, found_number, found_string, found_list,
  found_record, Message, not_true_or_false, needs_string, cannot_compare, Failure, diagnosed,
  panicked, starts_with_text, contains_text, ends_with_text, compare_texts,
}
use fpp_tools.Query.Glob.{glob_match}

abbrev pub Outcome : Type 0 → Type 0
Outcome A = Result A Failure

abbrev pub fail : {A : Type 0} → Span → Message → Outcome A
fail span m = err (diagnosed span m)

-- The spelling of operators, for messages.
abbrev pub spelling : RelOp → List ℕ
spelling RelOp.eq = codes "=="
spelling RelOp.ne = codes "!="
spelling RelOp.lt = codes "<"
spelling RelOp.le = codes "<="
spelling RelOp.gt = codes ">"
spelling RelOp.ge = codes ">="
spelling RelOp.contains = codes "contains"
spelling RelOp.starts_with = codes "starts_with"
spelling RelOp.ends_with = codes "ends_with"
spelling RelOp.matches = codes "matches"

abbrev pub texts_equal : Ordering → Bool
texts_equal Ordering.eq = true
texts_equal o = false

-- The last match of `rel` on an ordering.
abbrev pub holds_for : RelOp → Ordering → Bool
holds_for RelOp.lt Ordering.lt = true
holds_for RelOp.lt o = false
holds_for RelOp.le Ordering.gt = false
holds_for RelOp.le o = true
holds_for RelOp.gt Ordering.gt = true
holds_for RelOp.gt o = false
holds_for op Ordering.lt = false
holds_for op o = true

abbrev pub compare_ints : ℤ → ℤ → Ordering
compare_ints a b = if a ==ℤ b then Ordering.eq else if leb_ℤ a b then Ordering.lt else Ordering.gt

module _ {V : Type 0} (json : Json V) where
  unfoldable pub describe_view : View V → Found
  describe_view View.null = found_nothing
  describe_view (View.bool b) = found_bool b
  describe_view (View.number n s) = found_number s
  describe_view (View.string s) = found_string s
  describe_view (View.array vs) = found_list (length vs)
  describe_view (View.object get) = elim (get (codes "data")) [
    | none ↦ found_record
    | some v ↦ (elim (json.view v) [
      | View.null ↦ found_record
      | View.bool b ↦ found_record
      | View.number n s ↦ found_record
      | View.string s ↦ found_string s
      | View.array vs ↦ found_record
      | View.object f ↦ found_record
    ])
  ]

  abbrev pub describe : V → Found
  unfolding describe_view
  describe v = describe_view (json.view v)

  unfoldable pub as_bool : V → Span → Outcome Bool
  unfolding describe_view
  as_bool v span = elim (json.view v) [
    | View.bool b ↦ ok b
    | View.null ↦ fail span (not_true_or_false found_nothing)
    | View.number n s ↦ fail span (not_true_or_false (found_number s))
    | View.string s ↦ fail span (not_true_or_false (found_string s))
    | View.array vs ↦ fail span (not_true_or_false (found_list (length vs)))
    | View.object f ↦ fail span (not_true_or_false (describe_view (View.object f)))
  ]

  unfoldable pub data_text : Option V → Option (List ℕ)
  data_text none = none
  data_text (some v) = elim (json.view v) [
    | View.string s ↦ some s
    | View.null ↦ none
    | View.bool b ↦ none
    | View.number n s ↦ none
    | View.array vs ↦ none
    | View.object f ↦ none
  ]

  unfoldable pub view_as_str : View V → Span → List ℕ → Outcome (List ℕ)
  unfolding describe_view data_text
  view_as_str (View.string s) span what = ok s
  view_as_str (View.object f) span what = elim (data_text (f (codes "data"))) [
    | some s ↦ ok s
    | none ↦ fail span (needs_string what found_record)
  ]
  view_as_str v span what = fail span (needs_string what (describe_view v))

  unfoldable pub as_str : V → Span → List ℕ → Outcome (List ℕ)
  unfolding view_as_str
  as_str v span what = view_as_str (json.view v) span what

  unfoldable pub stringify : View V → Span → Outcome (List ℕ)
  unfolding view_as_str
  stringify (View.number n s) span = ok s
  stringify (View.bool b) span = ok (if b then codes "true" else codes "false")
  stringify v span = view_as_str v span (codes "+")

  abbrev pub as_i64 : View V → Option ℤ
  as_i64 (View.number n s) = n
  as_i64 v = none

  abbrev pub is_null : View V → Bool
  is_null View.null = true
  is_null v = false

  abbrev pub as_flag : View V → Option Bool
  as_flag (View.bool b) = some b
  as_flag v = none

  abbrev pub is_some_flag : Option Bool → Bool
  is_some_flag none = false
  is_some_flag (some b) = true

  abbrev pub is_number : View V → Bool
  is_number (View.number n s) = true
  is_number v = false

  abbrev pub same_flag : Bool → Bool → Bool
  same_flag true b = b
  same_flag false b = not b

  -- The last part of `equal`, behind the comparisons with null, of flags and of integers.
  unfoldable pub equal_texts : View V → View V → Span → Outcome Bool
  unfolding describe_view view_as_str compare_texts
  equal_texts l r span =
      if not (same_flag (is_some_flag (as_flag l)) (is_some_flag (as_flag r)))
        || not (same_flag (is_number l) (is_number r))
      then fail span (cannot_compare (describe_view l) (describe_view r))
      else (and_then (view_as_str l span (codes "=="))
          λ a. and_then (view_as_str r span (codes "==")) λ b. ok (texts_equal (compare_texts a b)))

  unfoldable pub equal_ints : View V → View V → Span → Outcome Bool
  unfolding equal_texts
  equal_ints l r span = elim (as_i64 l) [
    | none ↦ equal_texts l r span
    | some a ↦ (elim (as_i64 r) [ none ↦ equal_texts l r span | some b ↦ ok (a ==ℤ b) ])
  ]

  unfoldable pub equal_views : View V → View V → Span → Outcome Bool
  unfolding equal_ints
  equal_views l r span =
      if is_null l || is_null r then ok (is_null l && is_null r) else (elim (as_flag l) [
        | none ↦ equal_ints l r span
        | some a ↦ (elim (as_flag r) [ none ↦ equal_ints l r span | some b ↦ ok (same_flag a b) ])
      ])

  abbrev pub equal : V → V → Span → Outcome Bool
  unfolding equal_views
  equal l r span = equal_views (json.view l) (json.view r) span

  -- Both sides as texts.
  unfoldable pub with_texts :
      RelOp → View V → View V → Span → (List ℕ → List ℕ → Bool) → Outcome Bool
  unfolding view_as_str
  with_texts op l r span f =
      and_then (view_as_str l span (spelling op))
        λ a. and_then (view_as_str r span (spelling op)) λ b. ok (f a b)

  unfoldable pub ordered : RelOp → View V → View V → Span → Outcome Bool
  unfolding with_texts compare_texts
  ordered op l r span =
      let by_text = with_texts op l r span (λ a b. holds_for op (compare_texts a b)) in
      elim (as_i64 l) [
        | none ↦ by_text
        | some a ↦ (elim (as_i64 r) [
          | none ↦ by_text
          | some b ↦ ok (holds_for op (compare_ints a b))
        ])
      ]

  -- `rel`, on values that are not lifted over lists.
  unfoldable pub rel_views : RelOp → View V → View V → Span → Outcome Bool
  unfolding equal_views ordered with_texts contains_text starts_with_text ends_with_text glob_match
  rel_views RelOp.eq l r span = equal_views l r span
  rel_views RelOp.ne l r span = and_then (equal_views l r span) λ b. ok (not b)
  rel_views RelOp.contains l r span = with_texts RelOp.contains l r span contains_text
  rel_views RelOp.starts_with l r span = with_texts RelOp.starts_with l r span starts_with_text
  rel_views RelOp.ends_with l r span = with_texts RelOp.ends_with l r span ends_with_text
  rel_views RelOp.matches l r span = with_texts RelOp.matches l r span λ a b. glob_match b a
  rel_views op l r span = ordered op l r span

  -- The loop over the items of a list, which ends at the first that holds.
  unfoldable pub any_item : (V → Outcome Bool) → List V → Outcome Bool
  any_item f [] = ok false
  any_item f (v ∷ vs) = let rest = any_item f vs in and_then (f v) λ b. if b then ok true else rest

  -- What is done with the items of a list, and what with another value.
  unfoldable pub over_items : View V → (List V → Outcome Bool) → Outcome Bool → Outcome Bool
  over_items (View.array vs) lifted plain = lifted vs
  over_items w lifted plain = plain

  -- `rel`; its fuel is the size of the value on the left.
  unfoldable pub rel_loop : ℕ → RelOp → V → V → Span → Outcome Bool
  unfolding rel_views any_item over_items lifts_over_lists
  rel_loop zero op l r span = err panicked
  rel_loop (suc fuel) op l r span =
      let plain = rel_views op (json.view l) (json.view r) span in
      let items = over_items (json.view l) (any_item λ v. rel_loop fuel op v r span) plain in
      if lifts_over_lists op then items else plain

  unfoldable pub rel : RelOp → V → V → Span → Outcome Bool
  unfolding rel_loop
  rel op l r span = rel_loop (suc (json.size l)) op l r span
