-- ===== src/Query/Values.antt =====
-- fpp_query/src/query/eval.rs: the values of queries and the tests on texts. `serde_json::Value` is a
-- parameter, with a view of what a value is.
use Prim.Native.Nat.{compare, Ordering}
use fpp_tools.Prelude.{
  ℕ, zero, suc, ◌+◌, ◌-◌, ◌==◌, leb, ℤ, pos, negsuc, leb_ℤ, Bool, true, false, ◌&&◌, ◌||◌, List, [],
  ◌∷◌, ◌++◌, Option, if◌then◌else◌, find, length,
}
use fpp_tools.Query.Ast.{Span, Meta}

-- What a value is. A number gives its `as_i64` and its text, an object the value of a key.
pub data View (V : Type 0) : Type 0 where
  null : View V
  bool : Bool → View V
  number : Option ℤ → List ℕ → View V
  string : List ℕ → View V
  array : List V → View V
  object : (List ℕ → Option V) → View V

-- The values, how they are looked at and built, and a size by which a list is larger than its items.
pub record Json (V : Type 0) : Type 0 where
  pub view : V → View V
  pub of_null : V
  pub of_bool : Bool → V
  pub of_int : ℤ → V
  pub of_string : List ℕ → V
  pub of_array : List V → V
  pub size : V → ℕ

-- What a diagnostic says: the texts that a message is about, and what the source calls `describe` of a
-- value where it says what was found.
pub data Found : Type 0 where
  found_nothing : Found
  found_bool : Bool → Found
  found_number found_string : List ℕ → Found
  found_list : ℕ → Found
  found_record : Found

pub data Message : Type 0 where
  not_true_or_false query_not_bool in_needs_list join_needs_list not_an_index : Found → Message
  needs_string : List ℕ → Found → Message
  cannot_compare : Found → Found → Message
  no_enclosing : Option (List ℕ) → Message
  no_record : List ℕ → List ℕ → Found → Message
  no_field : List ℕ → List ℕ → Message
  out_of_range : ℕ → List ℕ → ℕ → Message
  empty_pattern empty_stem : Message
  bad_stem : ℕ → Message
  unknown_function : List ℕ → Message

-- `Diagnosed`, with the diagnostic that was emitted, or a panic.
pub data Failure : Type 0 where
  diagnosed : Span → Message → Failure
  panicked : Failure

-- `Bindings`, without the anchor, which every diagnostic carries.
pub record Bindings (V : Type 0) : Type 0 where
  pub kind : List ℕ
  pub node : V
  pub ancestor : Option (List ℕ) → V
  pub meta : Meta → V

-- The operations on texts.
unfoldable pub starts_with_text : List ℕ → List ℕ → Bool
starts_with_text s [] = true
starts_with_text [] (d ∷ t) = false
starts_with_text (c ∷ s) (d ∷ t) = let rest = starts_with_text s t in if c == d then rest else false

unfoldable pub contains_text : List ℕ → List ℕ → Bool
unfolding starts_with_text
contains_text [] t = starts_with_text [] t
contains_text (c ∷ s) t =
    let rest = contains_text s t in if starts_with_text (c ∷ s) t then true else rest

-- A text is the end of another where it is that text without some characters at the front.
unfoldable pub ends_with_text : List ℕ → List ℕ → Bool
unfolding starts_with_text
ends_with_text [] t = starts_with_text [] t
ends_with_text (c ∷ s) t =
    let rest = ends_with_text s t in
    if starts_with_text (c ∷ s) t && length t == length (c ∷ s) then true else rest

unfoldable pub compare_texts : List ℕ → List ℕ → Ordering
compare_texts [] [] = Ordering.eq
compare_texts [] (d ∷ t) = Ordering.lt
compare_texts (c ∷ s) [] = Ordering.gt
compare_texts (c ∷ s) (d ∷ t) =
    let rest = compare_texts s t in
    elim (compare c d) [
      | Ordering.lt ↦ Ordering.lt
      | Ordering.eq ↦ rest
      | Ordering.gt ↦ Ordering.gt
    ]

abbrev pub lower_char : ℕ → ℕ
lower_char c = if leb b'A' c && leb c b'Z' then c + 32 else c

abbrev pub upper_char : ℕ → ℕ
upper_char c = if leb b'a' c && leb c b'z' then c - 32 else c

-- `str::replace` of a text that is not empty: `skip` characters belong to the last occurrence.
unfoldable pub replace_text : List ℕ → List ℕ → ℕ → List ℕ → List ℕ
unfolding starts_with_text
replace_text from to skip [] = []
replace_text from to (suc skip) (c ∷ s) = replace_text from to skip s
replace_text from to zero (c ∷ s) =
    let found = to ++ replace_text from to (length from - 1) s in
    let kept = c ∷ replace_text from to 0 s in if starts_with_text (c ∷ s) from then found else kept

unfoldable pub join_texts : List ℕ → List (List ℕ) → List ℕ
join_texts sep [] = []
join_texts sep (s ∷ []) = s
join_texts sep (s ∷ t ∷ texts) = s ++ (sep ++ join_texts sep (t ∷ texts))

-- `i64::saturating_add` of what is the exact sum.
abbrev pub saturate : ℤ → ℤ
saturate n =
    if leb_ℤ (pos 9223372036854775807) n
    then pos 9223372036854775807
    else if leb_ℤ n (negsuc 9223372036854775807)
    then negsuc 9223372036854775807
    else n

-- fpp_query/src/naming.rs: `bad_filename_char`.
unfoldable pub bad_filename_char : List ℕ → Option ℕ
bad_filename_char name =
    find (λ c. c == b'\n' || (c == b'\r' || (c == b';' || (c == b'/' || c == b'\\')))) name
