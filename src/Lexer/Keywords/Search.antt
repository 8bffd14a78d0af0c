-- ===== src/Lexer/Keywords/Search.antt =====
-- fpp_lexer/src/token.rs: `KeywordKind::as_str` and `KeywordKind::get`, with the binary search of the
-- standard library over a table of texts.
use Prim.Native.Nat.{compare, Ordering}
use fpp_tools.Prelude.{
  ℕ, zero, suc, ◌+◌, ◌-◌, ◌/◌, ltb, ◌==◌, ◌≡◌, ◌↔◌, refl, sym, ◌∙◌, subst, Bool, true, false, ◌&&◌,
  List, [], ◌∷◌, Option, none, some, if◌then◌else◌, find, get_elem?, length, arith,
}
use fpp_tools.Lexer.Keywords.{KeywordKind, discriminant, action_keyword}
use fpp_tools.Lexer.Keywords.Table.{keywords}

abbrev Entry : Type 0
Entry = List ℕ × KeywordKind

-- The order of texts.
unfoldable pub compare_text : List ℕ → List ℕ → Ordering
compare_text [] [] = Ordering.eq
compare_text [] (d ∷ ds) = Ordering.lt
compare_text (c ∷ cs) [] = Ordering.gt
compare_text (c ∷ cs) (d ∷ ds) =
    let rest = compare_text cs ds in
    elim (compare c d) [
      | Ordering.lt ↦ Ordering.lt
      | Ordering.eq ↦ rest
      | Ordering.gt ↦ Ordering.gt
    ]

-- The entry of `text` in the entries from `low` on and below `high`. Each round halves the range at
-- least, so that its length is enough fuel.
unfoldable pub search_from : List Entry → ℕ → ℕ → ℕ → List ℕ → Option Entry
unfolding compare_text
search_from table zero low high text = none
search_from table (suc fuel) low high text =
    let mid = low + (high - low) / 2 in
    let left = search_from table fuel low mid text in
    let right = search_from table fuel (mid + 1) high text in
    if ltb low high
    then (elim (get_elem? table mid) [
      | none ↦ none
      | some (t, k) ↦ (elim (compare_text t text) [
        | Ordering.lt ↦ right
        | Ordering.eq ↦ some (t, k)
        | Ordering.gt ↦ left
      ])
    ])
    else none

abbrev kind_of : Option Entry → Option KeywordKind
kind_of none = none
kind_of (some (t, k)) = some k

abbrev text_of : Option Entry → Option (List ℕ)
text_of none = none
text_of (some (t, k)) = some t

unfoldable pub get : List ℕ → Option KeywordKind
unfolding search_from
get text = kind_of (search_from keywords (length keywords) 0 (length keywords) text)

-- `as_str` expects to find an entry.
unfoldable pub as_str : KeywordKind → Option (List ℕ)
unfolding discriminant
as_str kind = text_of (find (λ (text, k). discriminant k == discriminant kind) keywords)

-- Texts that compare as equal are equal.
compare_text-eq : (s t : List ℕ) → compare_text s t ≡ Ordering.eq → s ≡ t
unfolding compare_text
compare_text-eq [] [] h = refl
compare_text-eq [] (d ∷ t) h = cc
compare_text-eq (c ∷ s) [] h = cc
compare_text-eq (c ∷ s) (d ∷ t) h = ground (arith, compare_text-eq s t)

-- The round that looks at the middle entry, with what the other rounds give.
probe-some :
    {G : Type 0} (table : List Entry) (n low high mid : ℕ) (text : List ℕ) (e : Entry)
    → mid ≡ low + (high - low) / 2
    → search_from table (suc n) low high text ≡ some e
    → (search_from table n low mid text ≡ some e → G)
    → (search_from table n (mid + 1) high text ≡ some e → G)
    → (get_elem? table mid ≡ some e → compare_text e.0 text ≡ Ordering.eq → G)
    → G
unfolding search_from
probe-some table n low high mid text e m h left right hit = ground arith

search_from-entry :
    (table : List Entry) (n low high : ℕ) (text : List ℕ) (e : Entry)
    → search_from table n low high text ≡ some e
    → (e.0 ≡ text) × ((i : ℕ) × (get_elem? table i ≡ some e))
unfolding search_from
search_from-entry table zero low high text e h = cc
search_from-entry table (suc n) low high text e h =
    let mid = low + (high - low) / 2 in
    probe-some table n low high mid text e refl h (search_from-entry table n low mid text e)
      (search_from-entry table n (mid + 1) high text e)
      λ at same. (compare_text-eq e.0 text same, (mid, at))

get-as_str : (k : KeywordKind) → (t : List ℕ) × (as_str k ≡ some t) × (get t ≡ some k)
unfolding get as_str
get-as_str k = elim k as (λ k. (t : List ℕ) × (as_str k ≡ some t) × (get t ≡ some k)) [
  | action_keyword ↦ (_, refl, refl)
  | _ ↦ (_, refl, refl)
]

-- Every entry of the table, checked by computing it.
every : (Entry → Bool) → List Entry → Bool
every p [] = true
every p (x ∷ xs) = p x && every p xs

every-get_elem? :
    (p : Entry → Bool) (xs : List Entry) (i : ℕ) (x : Entry)
    → every p xs ≡ true
    → get_elem? xs i ≡ some x
    → p x ≡ true
unfolding every
every-get_elem? p [] i x h e = cc
every-get_elem? p (y ∷ xs) zero x h e = ground arith
every-get_elem? p (y ∷ xs) (suc i) x h e = ground (arith, every-get_elem? p xs i x)

is_text : List ℕ → Option (List ℕ) → Bool
unfolding compare_text
is_text text none = false
is_text text (some t) = elim (compare_text t text) [
  | Ordering.lt ↦ false
  | Ordering.eq ↦ true
  | Ordering.gt ↦ false
]

is_text-eq : (text : List ℕ) (o : Option (List ℕ)) → is_text text o ≡ true → o ≡ some text
unfolding is_text
is_text-eq text none h = cc
is_text-eq text (some t) h = ground (arith, compare_text-eq t text)

is_spelled : Entry → Bool
unfolding is_text as_str
is_spelled (text, k) = is_text text (as_str k)

every-is_spelled-keywords : every is_spelled keywords ≡ true
unfolding every is_spelled
every-is_spelled-keywords = refl

is_spelled-as_str :
    (text : List ℕ) (k : KeywordKind) → is_spelled (text, k) ≡ true → as_str k ≡ some text
unfolding is_spelled
is_spelled-as_str text k h = is_text-eq text (as_str k) h

some-eq : (s t : List ℕ) → some s ≡ some t → s ≡ t
some-eq s t h = cc

kind_of-some :
    (o : Option Entry) (k : KeywordKind) → kind_of o ≡ some k → (t : List ℕ) × (o ≡ some (t, k))
kind_of-some none k h = cc
kind_of-some (some (t, k')) k h = (t, cc)

-- The keywords and their spellings: `get` finds a keyword for a text exactly where `as_str` spells
-- that keyword as the text, and every keyword has a spelling.
pub get_iff :
    (k : KeywordKind)
    → ((text : List ℕ) → (get text ≡ some k) ↔ (as_str k ≡ some text))
      × ((t : List ℕ) × (as_str k ≡ some t))
unfolding get
get_iff k =
    let (spelling, spelled, found) = get-as_str k in
    (
      λ text. (
        λ h.
            let (t, e) = kind_of-some _ k h in
            let (same, (i, at)) =
              search_from-entry keywords (length keywords) 0 (length keywords) text (t, k) e in
            is_spelled-as_str text k (
              subst (λ t. is_spelled (t, k) ≡ true) same
                (every-get_elem? is_spelled keywords i (t, k) every-is_spelled-keywords at)),
        λ h. subst (λ t. get t ≡ some k) (some-eq spelling text (sym spelled ∙ h)) found,
      ),
      (spelling, spelled),
    )
