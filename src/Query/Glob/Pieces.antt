-- ===== src/Query/Glob/Pieces.antt =====
-- fpp_query/src/query/eval.rs: the parts of a pattern of `glob_match`, and what texts they match.
use fpp_tools.Prelude.{
  ℕ, zero, suc, ◌+◌, ◌==◌, ◌≤◌, ◌≡◌, ◌≢◌, ◌↔◌, inl, inr, refl, sym, ap, subst, ◌∙◌, Bool, true,
  false, List, [], ◌∷◌, some, if◌then◌else◌, length, drop, arith, Bool-cases,
}
use fpp_tools.Query.Glob.{
  star_char, one_char, escape_char, only_stars, Star, Rounds, backtrack, escaped, round,
}

-- The parts of a pattern: any run of characters, any one character, one given character.
pub data Piece : Type 0 where
  any_run any_one : Piece
  literal : ℕ → Piece

-- The first part of a pattern `d ∷ p`, and what follows it. A backslash at the end stands for itself.
unfoldable pub piece : ℕ → List ℕ → Piece × List ℕ
piece d [] =
    if d == star_char
    then (any_run, [])
    else if d == one_char
    then (any_one, [])
    else (literal d, [])
piece d (e ∷ p) =
    if d == star_char
    then (any_run, e ∷ p)
    else if d == one_char
    then (any_one, e ∷ p)
    else if d == escape_char
    then (literal e, p)
    else (literal d, e ∷ p)

abbrev plain_piece : ℕ → Piece
plain_piece d = if d == star_char then any_run else if d == one_char then any_one else literal d

unfoldable pub pieces : List ℕ → List Piece
pieces [] = []
pieces (d ∷ []) = plain_piece d ∷ []
pieces (d ∷ e ∷ p) =
    let escaped = literal e ∷ pieces p in
    let plain = plain_piece d ∷ pieces (e ∷ p) in if d == escape_char then escaped else plain

pub pieces-cons : (d : ℕ) (p : List ℕ) → pieces (d ∷ p) ≡ (piece d p).0 ∷ pieces (piece d p).1
unfolding pieces piece
pieces-cons d [] = ground arith
pieces-cons d (e ∷ p) = ground arith

-- The text is what the parts stand for, one after the other.
abbrev pub Matches : List Piece → List ℕ → Type 0
Matches [] t = t ≡ []
Matches (any_run ∷ ps) t = (k : ℕ) × Matches ps (drop k t)
Matches (any_one ∷ ps) t = (c : ℕ) × ((rest : List ℕ) × (t ≡ c ∷ rest) × Matches ps rest)
Matches (literal c ∷ ps) t = (rest : List ℕ) × (t ≡ c ∷ rest) × Matches ps rest

-- One round, on the first part of the pattern.
unfoldable pub round_piece : Rounds → Piece × List ℕ → ℕ → List ℕ → Star → Bool
round_piece loop (any_run, p) c t star = loop p (c ∷ t) (some (p, c ∷ t))
round_piece loop (any_one, p) c t star = loop p t star
round_piece loop (literal e, p) c t star = if e == c then loop p t star else backtrack loop star

pub round-piece :
    (loop : Rounds) (d : ℕ) (p : List ℕ) (c : ℕ) (t : List ℕ) (star : Star)
    → round loop (d ∷ p) c t star ≡ round_piece loop (piece d p) c t star
unfolding round round_piece piece escaped
round-piece loop d [] c t star = ground arith
round-piece loop d (e ∷ p) c t star = ground arith

pub piece-shorter : (d : ℕ) (p : List ℕ) → length (piece d p).1 ≤ length p
unfolding piece
piece-shorter d [] = ground arith
piece-shorter d (e ∷ p) = ground arith

piece-star : (d : ℕ) (p : List ℕ) → (d == star_char) ≡ true → piece d p ≡ (any_run, p)
unfolding piece
piece-star d [] h = rw (h) refl
piece-star d (e ∷ p) h = rw (h) refl

piece-no_star : (d : ℕ) (p : List ℕ) → (d == star_char) ≡ false → (piece d p).0 ≢ any_run
unfolding piece
piece-no_star d [] h = ground arith
piece-no_star d (e ∷ p) h = ground arith

pub drop-empty : (k : ℕ) → drop {A = ℕ} k [] ≡ []
drop-empty zero = refl
drop-empty (suc k) = refl

pub drop-drop : (n k : ℕ) (u : List ℕ) → drop k (drop n u) ≡ drop (n + k) u
drop-drop zero k u = ap (λ i. drop i u) (omega arith)
drop-drop (suc n) k [] = drop-empty k ∙ sym (drop-empty (suc n + k))
drop-drop (suc n) k (c ∷ u) =
    let next : suc (n + k) ≡ suc n + k = omega arith in
    drop-drop n k u ∙ ap (λ i. drop i (c ∷ u)) next

-- A text that is at its end is matched by stars only.
Matches-end : (q : Piece) (ps : List Piece) → q ≢ any_run → Matches (q ∷ ps) [] → ⊥
Matches-end any_run ps h m = h refl
Matches-end any_one ps h (c, (rest, e, m)) = cc
Matches-end (literal c) ps h (rest, e, m) = cc

pub only_stars-Matches : (p : List ℕ) → (only_stars p ≡ true) ↔ Matches (pieces p) []
unfolding pieces only_stars
only_stars-Matches [] = (λ h. refl, λ h. refl)
only_stars-Matches (d ∷ p) = elim (Bool-cases (d == star_char)) [
  | inl h ↦
      let at_star = pieces-cons d p ∙ ap (λ x. x.0 ∷ pieces x.1) (piece-star d p h) in
      let (to, from) = only_stars-Matches p in
      (
        λ e. subst (λ ps. Matches ps []) (sym at_star) (0, to (ground arith)),
        λ m.
            let (k, m') = subst (λ ps. Matches ps []) at_star m in
            let rest = from (subst (Matches (pieces p)) (drop-empty k) m') in ground arith,
      )
  | inr h ↦ (
    λ e. absurd (ground arith),
    λ m. absurd (
        Matches-end (piece d p).0 _ (piece-no_star d p h)
          (subst (λ ps. Matches ps []) (pieces-cons d p) m)),
  )
]
