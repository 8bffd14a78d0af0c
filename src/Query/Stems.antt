-- ===== src/Query/Stems.antt =====
-- fpp_query/src/query/eval.rs and naming.rs: the names of files that queries give.
use fpp_tools.Prelude.{
  ℕ, ◌≡◌, ◌==◌, ◌||◌, refl, ap, sym, subst, ◌↔◌, Bool, false, List, [], ◌∷◌, Option, none, some, ℤ, All, ok, err,
  and_then, arith,
}
use fpp_tools.Lexer.Keywords.Table.{codes}
use fpp_tools.Query.Ast.{Span, Expr, span_of}
use fpp_tools.Query.Values.{View, Json, Bindings, bad_filename_char}
use fpp_tools.Query.Eval.{Outcome, data_text, view_as_str}
use fpp_tools.Query.Expr.{eval, eval_stem, stem_text, check_stem}

-- A line feed, a carriage return, a semicolon, a slash or a backslash.
unfoldable pub splits_name : ℕ → Bool
splits_name c = c == 10 || (c == 13 || (c == 59 || (c == 47 || c == 92)))

pub data IsStem : List ℕ → Type 0 where
  stem : (c : ℕ) (s : List ℕ) → All (λ d. splits_name d ≡ false) (c ∷ s) → IsStem (c ∷ s)

good_everywhere : (s : List ℕ) → bad_filename_char s ≡ none → All (λ d. splits_name d ≡ false) s
unfolding bad_filename_char splits_name
good_everywhere [] good = tt
good_everywhere (c ∷ s) good = (ground arith, good_everywhere s (ground arith))

none_bad : (s : List ℕ) → All (λ d. splits_name d ≡ false) s → bad_filename_char s ≡ none
unfolding bad_filename_char splits_name
none_bad [] good = refl
none_bad (c ∷ s) (first, rest) = let more = none_bad s rest in ground arith

module _ {V : Type 0} (json : Json V) where
  check_stem-IsStem :
      (s t : List ℕ) (span : Span) → check_stem json s span ≡ ok t → (s ≡ t) × IsStem s
  unfolding check_stem
  check_stem-IsStem [] t span checked = ground arith
  check_stem-IsStem (c ∷ s) t span checked =
      (ground arith, stem c s (good_everywhere (c ∷ s) (ground arith)))

  check_stem-pass : {s : List ℕ} (span : Span) → IsStem s → check_stem json s span ≡ ok s
  unfolding check_stem
  check_stem-pass span (stem c s good) = let none_found = none_bad (c ∷ s) good in ground arith

  checked_iff :
      (m : Outcome (List ℕ)) (t : List ℕ) (span : Span)
      → (and_then m (λ s. check_stem json s span) ≡ ok t) ↔ ((m ≡ ok t) × IsStem t)
  checked_iff (err failure) t span = (λ h. ground arith, λ (h, is). ground arith)
  checked_iff (ok s) t span = (
    (λ h. let (same, is) = check_stem-IsStem s t span h in (ap ok same, subst IsStem same is)),
    λ (h, is).
        let same : s ≡ t = ground arith in
        subst (λ u. check_stem json u span ≡ ok t) (sym same) (check_stem-pass span is),
  )

  -- The text that a value is the name of: a text, the text of a number, or the text in the field `data`
  -- of a record.
  pub data TextOf : View V → List ℕ → Type 0 where
    of_number : (n : Option ℤ) (s : List ℕ) → TextOf (View.number n s) s
    of_string : (s : List ℕ) → TextOf (View.string s) s
    of_data :
        (get : List ℕ → Option V) (v : V) (s : List ℕ)
        → get (codes "data") ≡ some v
        → json.view v ≡ View.string s
        → TextOf (View.object get) s

  data_text-string :
      (o : Option V) (s : List ℕ)
      → data_text json o ≡ some s
      → (v : V) × (o ≡ some v) × (json.view v ≡ View.string s)
  unfolding data_text
  data_text-string none s h = absurd (ground arith)
  data_text-string (some v) s h = (v, refl, ground arith)

  data_text-found :
      (o : Option V) (v : V) (s : List ℕ)
      → o ≡ some v
      → json.view v ≡ View.string s
      → data_text json o ≡ some s
  unfolding data_text
  data_text-found o v s found is_string = ground arith

  stem_text-TextOf :
      (w : View V) (s : List ℕ) (span : Span) → stem_text json w span ≡ ok s → TextOf w s
  unfolding stem_text view_as_str
  stem_text-TextOf (View.number n t) s span h =
      let same : t ≡ s = ground arith in subst (TextOf (View.number n t)) same (of_number n t)
  stem_text-TextOf (View.string t) s span h =
      let same : t ≡ s = ground arith in subst (TextOf (View.string t)) same (of_string t)
  stem_text-TextOf (View.object get) s span h =
      let (v, found, is_string) = data_text-string (get (codes "data")) s (ground arith) in
      of_data get v s found is_string
  stem_text-TextOf View.null s span h = absurd (ground arith)
  stem_text-TextOf (View.bool b) s span h = absurd (ground arith)
  stem_text-TextOf (View.array vs) s span h = absurd (ground arith)

  TextOf-stem_text :
      {w : View V} {s : List ℕ} (span : Span) → TextOf w s → stem_text json w span ≡ ok s
  unfolding stem_text view_as_str data_text
  TextOf-stem_text span (of_number n s) = refl
  TextOf-stem_text span (of_string s) = refl
  TextOf-stem_text span (of_data get v s found is_string) =
      let in_data = data_text-found (get (codes "data")) v s found is_string in ground arith

  stem_of_outcome :
      (m : Outcome V) (span : Span) (s : List ℕ)
      → (and_then m (λ v. and_then (stem_text json (json.view v) span) λ t. check_stem json t span)
          ≡ ok s)
        ↔ ((v : V) × (m ≡ ok v) × TextOf (json.view v) s × IsStem s)
  stem_of_outcome (err failure) span s = (λ h. absurd (ground arith), λ (v, given, text, is). absurd (ground arith))
  stem_of_outcome (ok v) span s = (
    (λ h.
        let (text, is) = (checked_iff (stem_text json (json.view v) span) s span).0 h in
        (v, refl, stem_text-TextOf (json.view v) s span text, is)),
    λ (w, given, text, is).
        let same : w ≡ v = ground arith in
        (checked_iff (stem_text json (json.view v) span) s span).1
          (TextOf-stem_text span (subst (λ u. TextOf (json.view u) s) same text), is),
  )

  -- `eval_stem` gives a stem exactly where the query gives a value that is a text, a number, or a record
  -- with a text as its `data`, the stem is that text, it is not empty, and it has no character that
  -- splits the name of a file. All else is an error.
  pub eval_stem_iff :
      (b : Bindings V) (e : Expr) (s : List ℕ)
      → (eval_stem json b e ≡ ok s)
        ↔ ((v : V) × (eval json b e ≡ ok v) × TextOf (json.view v) s × IsStem s)
  unfolding eval_stem
  eval_stem_iff b e s = stem_of_outcome (eval json b e) (span_of e) s
