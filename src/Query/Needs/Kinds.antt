-- ===== src/Query/Needs/Kinds.antt =====
-- fpp_query/src/query/ast.rs: the lists of the ancestors that a query reads.
use fpp_tools.Prelude.{
  ℕ, ◌≡◌, refl, ap, sym, ◌∙◌, true, List, [], ◌∷◌, ◌++◌, Option, none, some, arith,
}
use fpp_tools.Query.Ast.{same_text, same_kind, has_kind, add_kind, add_kinds, same_kind}

pub same_text_refl : (t : List ℕ) → same_text t t ≡ true
unfolding same_text
same_text_refl [] = refl
same_text_refl (c ∷ t) = let ih = same_text_refl t in ground arith

pub same_kind_refl : (k : Option (List ℕ)) → same_kind k k ≡ true
unfolding same_kind
same_kind_refl none = refl
same_kind_refl (some t) = same_text_refl t

pub has_kind_append :
    (k : Option (List ℕ)) (ks more : List (Option (List ℕ)))
    → has_kind k ks ≡ true
    → has_kind k (ks ++ more) ≡ true
unfolding has_kind
has_kind_append k [] more found = ground arith
has_kind_append k (a ∷ ks) more found = let ih = has_kind_append k ks more in ground arith

pub has_kind_last :
    (k : Option (List ℕ)) (ks : List (Option (List ℕ))) → has_kind k (ks ++ k ∷ []) ≡ true
unfolding has_kind
has_kind_last k [] = let same = same_kind_refl k in ground arith
has_kind_last k (a ∷ ks) = let ih = has_kind_last k ks in ground arith

pub has_kind-add_kind :
    (k j : Option (List ℕ)) (ks : List (Option (List ℕ)))
    → has_kind k ks ≡ true
    → has_kind k (add_kind j ks) ≡ true
unfolding add_kind
has_kind-add_kind k j ks found = let more = has_kind_append k ks (j ∷ []) found in ground arith

pub has_kind-add_kind_self :
    (k : Option (List ℕ)) (ks : List (Option (List ℕ))) → has_kind k (add_kind k ks) ≡ true
unfolding add_kind
has_kind-add_kind_self k ks = let last = has_kind_last k ks in ground arith

pub same_text-Equal : (s t : List ℕ) → same_text s t ≡ true → s ≡ t
unfolding same_text
same_text-Equal [] [] same = refl
same_text-Equal [] (d ∷ t) same = ground arith
same_text-Equal (c ∷ s) [] same = ground arith
same_text-Equal (c ∷ s) (d ∷ t) same = let rest = same_text-Equal s t in ground arith

pub same_kind-Equal : (j k : Option (List ℕ)) → same_kind j k ≡ true → j ≡ k
unfolding same_kind
same_kind-Equal none none same = refl
same_kind-Equal none (some t) same = ground arith
same_kind-Equal (some s) none same = ground arith
same_kind-Equal (some s) (some t) same = ap some (same_text-Equal s t same)

pub has_kind-add_kind_same :
    (k j : Option (List ℕ)) (ks : List (Option (List ℕ)))
    → same_kind j k ≡ true
    → has_kind k (add_kind j ks) ≡ true
has_kind-add_kind_same k j ks same =
    sym (ap (λ i. has_kind i (add_kind j ks)) (same_kind-Equal j k same))
    ∙ has_kind-add_kind_self j ks

-- What is listed stays listed, and what is added is listed.
pub has_kind-add_kinds :
    (k : Option (List ℕ)) (more ks : List (Option (List ℕ)))
    → has_kind k ks ≡ true
    → has_kind k (add_kinds more ks) ≡ true
unfolding add_kinds
has_kind-add_kinds k [] ks found = found
has_kind-add_kinds k (j ∷ more) ks found =
    has_kind-add_kinds k more (add_kind j ks) (has_kind-add_kind k j ks found)

pub has_kind-add_kinds_more :
    (k : Option (List ℕ)) (more ks : List (Option (List ℕ)))
    → has_kind k more ≡ true
    → has_kind k (add_kinds more ks) ≡ true
unfolding add_kinds has_kind
has_kind-add_kinds_more k [] ks found = ground arith
has_kind-add_kinds_more k (j ∷ more) ks found =
    let last = has_kind-add_kinds k more (add_kind j ks) in
    let is_first = has_kind-add_kind_same k j ks in
    let rest = has_kind-add_kinds_more k more (add_kind j ks) in ground arith
