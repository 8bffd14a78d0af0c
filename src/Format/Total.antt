-- ===== src/Format/Total.antt =====
-- fpp_analysis/src/semantics/format.rs: the loop over the fields ends on every format string.
use fpp_tools.Prelude.{
  ℕ, zero, suc, ◌+◌, ◌≤◌, ◌<◌, ◌==◌, ◌≡◌, Bool, true, false, ◌||◌, List, [], ◌∷◌, Option, none,
  some, inl, inr, Result, ok, err, and_then, if◌then◌else◌, length, arith, Bool-cases, ◌≢◌,
}
use fpp_tools.Format.Syntax.{Field, ParsedFormat}
use fpp_tools.Format.Parser.{
  Cursor, out_of_fuel, ParseError, ParseResult, open_brace, close_brace, string, take_digits,
  finish_precision, precision, rational_type, field_body, close_field, field_after_brace,
  format_fields, parse_all_input,
}

-- The run leaves at most `n` characters, or fails with a message of the source.
abbrev Advances : {A : Type 0} → ℕ → ParseResult A → Type 0
Advances n (ok (a, cur)) = length cur.rest ≤ n
Advances n (err e) = e.msg ≡ out_of_fuel → ⊥

Advances-and_then :
    {A B : Type 0} (n k : ℕ) (r : ParseResult A) (f : A × Cursor → ParseResult B)
    → Advances n r
    → ((a : A) (cur : Cursor) → length cur.rest ≤ n → Advances k (f (a, cur)))
    → Advances k (and_then r f)
Advances-and_then n k (ok (a, cur)) f h g = g a cur h
Advances-and_then n k (err e) f h g = h

Advances-if :
    {A : Type 0} (n : ℕ) (b : Bool) (x y : ParseResult A)
    → Advances n x
    → Advances n y
    → Advances n (if b then x else y)
Advances-if n true x y hx hy = hx
Advances-if n false x y hx hy = hy

string-le : (p : ℕ) (xs : List ℕ) → length (string p xs).1.rest ≤ length xs
unfolding string
string-le p [] = omega arith
string-le p (c ∷ []) = ground arith
string-le p (c ∷ d ∷ xs) = ground (arith, string-le (p + 2) xs, string-le (p + 1) (d ∷ xs))

take_digits-le : (p : ℕ) (xs : List ℕ) → length (take_digits p xs).1.rest ≤ length xs
unfolding take_digits
take_digits-le p [] = omega arith
take_digits-le p (c ∷ xs) = ground (arith, take_digits-le (p + 1) xs)

finish_precision-Advances :
    (n : ℕ) (ds : List ℕ) (cur : Cursor)
    → length cur.rest ≤ n
    → Advances n (finish_precision (ds, cur))
unfolding finish_precision
finish_precision-Advances n [] cur h = λ e. cc
finish_precision-Advances n (d ∷ ds) cur h = h

rational_type-Advances :
    (n p : ℕ) (xs : List ℕ)
    → length xs ≤ n
    → Advances n (rational_type (record { position = p; rest = xs }))
unfolding rational_type
rational_type-Advances n p [] h = λ e. cc
rational_type-Advances n p (c ∷ cs) h = Advances-if n (c == b'e') _ _ (omega arith) (
    Advances-if n (c == b'f') _ _ (omega arith)
      (Advances-if n (c == b'g') _ _ (omega arith) (λ e. cc)))

precision-Advances : (p : ℕ) (xs : List ℕ) → Advances (length xs) (precision p xs)
unfolding precision
precision-Advances p xs =
    finish_precision-Advances (length xs) (take_digits p xs).0 (take_digits p xs).1
      (take_digits-le p xs)

-- Of a cursor that an earlier step left.
rational_field-Advances :
    (n : ℕ) (precision? : Option (List ℕ)) (cur : Cursor)
    → length cur.rest ≤ n
    → Advances n
        (and_then (rational_type cur) λ (kind, cur'). ok (Field.rational precision? kind, cur'))
rational_field-Advances n precision? cur h =
    Advances-and_then n n (rational_type cur) _ (rational_type-Advances n cur.position cur.rest h)
      λ kind cur' h'. h'

field_body-Advances : (p : ℕ) (xs : List ℕ) → Advances (length xs) (field_body p xs)
unfolding field_body
field_body-Advances p [] = λ e. cc
field_body-Advances p (c ∷ cs) =
    let n = suc (length cs) in
    Advances-if n (c == b'c') _ _ (omega arith) (
      Advances-if n (c == b'd') _ _ (omega arith) (
        Advances-if n (c == b'x') _ _ (omega arith) (
          Advances-if n (c == b'o') _ _ (omega arith) (
            Advances-if n (c == b'.') _ _
              (Advances-and_then (length cs) n (precision (p + 1) cs) _
                (precision-Advances (p + 1) cs)
                λ digits cur h. rational_field-Advances n (some digits) cur (omega arith))
              (Advances-if n (c == b'e' || (c == b'f' || c == b'g')) _ _
                (rational_field-Advances n none (record { position = p; rest = c ∷ cs })
                  (omega arith))
                (λ e. cc))))))

close_field-Advances :
    (n start p : ℕ) (f : Field) (xs : List ℕ)
    → length xs ≤ n
    → Advances n (close_field start (f, record { position = p; rest = xs }))
close_field-Advances n start p f [] h = λ e. cc
close_field-Advances n start p f (c ∷ cs) h =
    Advances-if n (c == close_brace) _ _ (omega arith) (λ e. cc)

other_field-Advances :
    (start : ℕ) (xs : List ℕ)
    → Advances (length xs) (and_then (field_body (start + 1) xs) (close_field start))
other_field-Advances start xs =
    Advances-and_then (length xs) (length xs) (field_body (start + 1) xs) (close_field start)
      (field_body-Advances (start + 1) xs)
      λ f cur h. close_field-Advances (length xs) start cur.position f cur.rest h

field_after_brace-Advances :
    (start : ℕ) (xs : List ℕ) → Advances (length xs) (field_after_brace start xs)
unfolding field_after_brace
field_after_brace-Advances start [] = other_field-Advances start []
field_after_brace-Advances start (c ∷ cs) =
    Advances-if (suc (length cs)) (c == close_brace) _ _ (omega arith)
      (other_field-Advances start (c ∷ cs))

-- A result, or a message of the source.
abbrev Reports : {A : Type 0} → Result A ParseError → Type 0
Reports (ok a) = Unit {0}
Reports (err e) = e.msg ≡ out_of_fuel → ⊥

Reports-and_then :
    {A B : Type 0} (r : Result A ParseError) (f : A → Result B ParseError)
    → Reports r
    → ((a : A) → Reports (f a))
    → Reports (and_then r f)
Reports-and_then (ok a) f h g = g a
Reports-and_then (err e) f h g = h

Reports-advance :
    {A B : Type 0} (n : ℕ) (r : ParseResult A) (f : A × Cursor → Result B ParseError)
    → Advances n r
    → ((a : A) (cur : Cursor) → length cur.rest ≤ n → Reports (f (a, cur)))
    → Reports (and_then r f)
Reports-advance n (ok (a, cur)) f h g = g a cur h
Reports-advance n (err e) f h g = h

format_fields-Reports :
    (fuel p : ℕ) (xs : List ℕ)
    → length xs < fuel
    → Reports (format_fields fuel (record { position = p; rest = xs }))
unfolding format_fields
format_fields-Reports zero p xs h = absurd (omega arith)
format_fields-Reports (suc fuel) p [] h = tt
format_fields-Reports (suc fuel) p (c ∷ cs) h = elim (Bool-cases (c == open_brace)) [
  | inr e ↦ rw e (λ e'. cc)
  | inl e ↦ rw e (
      Reports-advance (length cs) (field_after_brace p cs) _ (field_after_brace-Advances p cs)
        λ fs next b.
          Reports-and_then (format_fields fuel (string next.position next.rest).1) _
            (format_fields-Reports fuel (string next.position next.rest).1.position
              (string next.position next.rest).1.rest
              (omega (arith, string-le next.position next.rest)))
            λ more. tt)
]

-- The parser ends on every format string with a format or with one of its own messages: the fuel of
-- the loop over the fields is always enough.
pub parse_all_input_ends :
    (chars : List ℕ) (e : ParseError) → parse_all_input chars ≡ err e → e.msg ≢ out_of_fuel
unfolding parse_all_input
parse_all_input_ends chars e h = reports (parse_all_input chars) whole h
  where
    whole : Reports (parse_all_input chars)
    whole =
        Reports-and_then (format_fields (length chars + 1) (string 0 chars).1) _
          (format_fields-Reports (length chars + 1) (string 0 chars).1.position
            (string 0 chars).1.rest (omega (arith, string-le 0 chars)))
          λ fs. tt

    reports : (r : Result ParsedFormat ParseError) → Reports r → r ≡ err e → e.msg ≡ out_of_fuel → ⊥
    reports (ok f) t k m = cc
    reports (err e') t k m = t (cc)
