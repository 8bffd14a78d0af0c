-- ===== src/Query/Glob/Rounds.antt =====
-- fpp_query/src/query/eval.rs: what one round of the loop of `glob_match` decides, where the rounds that
-- follow decide it.
use fpp_tools.Prelude.{
  ℕ, zero, suc, ◌+◌, ◌==◌, ◌≤◌, ◌≡◌, ◌↔◌, ◌⊎◌, inl, inr, refl, sym, ap, subst, ◌∙◌, true, List, [],
  ◌∷◌, none, some, length, drop, arith, ==_iff, Bool-cases,
}
use fpp_tools.Query.Glob.{tail, Star, Rounds, backtrack}
use fpp_tools.Query.Glob.Pieces.{
  Piece, any_run, any_one, literal, pieces, Matches, round_piece, drop-drop,
}

-- What a star can still give: it takes one character more, or more than one.
unfoldable pub Alternative : Star → Type 0
Alternative none = ⊥
Alternative (some (behind, from)) = (k : ℕ) × Matches (pieces behind) (drop (suc k) from)

-- From the last star on, the pattern was matched to as many characters as its parts, so that any
-- match of what is behind the star goes on from there.
unfoldable pub Reached : List Piece → List ℕ → Star → Type 0
Reached ps t none = Unit
Reached ps t (some (behind, from)) =
    (n : ℕ) × (t ≡ drop n from) × ((u : List ℕ) → Matches (pieces behind) u → Matches ps (drop n u))

-- A star that comes later covers the alternatives of the earlier one.
pub Alternative-Reached :
    (ps : List Piece) (t : List ℕ) (star : Star)
    → Reached ps t star
    → Alternative star
    → (k : ℕ) × Matches ps (drop (suc k) t)
unfolding Reached Alternative
Alternative-Reached ps t none r a = absurd a
Alternative-Reached ps t (some (behind, from)) (n, e, r) (k, m) =
    let turned : suc k + n ≡ n + suc k = omega arith in
    let same =
      drop-drop (suc k) n from
      ∙ (ap (λ i. drop i from) turned
          ∙ (sym (drop-drop n (suc k) from) ∙ ap (drop (suc k)) (sym e))) in
    (k, subst (Matches ps) same (r (drop (suc k) from) m))

-- One character of the text and one part of the pattern are passed over.
Reached-step :
    (q : Piece) (ps : List Piece) (c : ℕ) (t : List ℕ) (star : Star)
    → ((u : List ℕ) → Matches (q ∷ ps) u → Matches ps (drop 1 u))
    → Reached (q ∷ ps) (c ∷ t) star
    → Reached ps t star
unfolding Reached
Reached-step q ps c t none h r = tt
Reached-step q ps c t (some (behind, from)) h (n, e, r) = (
  n + 1,
  ap (drop 1) e ∙ drop-drop n 1 from,
  λ u m. subst (Matches ps) (drop-drop n 1 u) (h (drop n u) (r u m)),
)

tail-eq : {c c' : ℕ} {t t' : List ℕ} → c ∷ t ≡ c' ∷ t' → t' ≡ t
tail-eq e = cc

head-eq : {c c' : ℕ} {t t' : List ℕ} → c ∷ t ≡ c' ∷ t' → c' ≡ c
head-eq e = cc

one_step : (ps : List Piece) (u : List ℕ) → Matches (any_one ∷ ps) u → Matches ps (drop 1 u)
one_step ps u (c, (rest, e, m)) = subst (λ u. Matches ps (drop 1 u)) (sym e) m

literal_step :
    (d : ℕ) (ps : List Piece) (u : List ℕ) → Matches (literal d ∷ ps) u → Matches ps (drop 1 u)
literal_step d ps u (rest, e, m) = subst (λ u. Matches ps (drop 1 u)) (sym e) m

abbrev pub Decides : Rounds → List ℕ → List ℕ → Star → Type 0
Decides loop p t star = (loop p t star ≡ true) ↔ (Matches (pieces p) t ⊎ Alternative star)

-- What the rounds that follow decide where the star takes one more character.
unfoldable pub Retries : Rounds → Star → Type 0
Retries loop none = Unit
Retries loop (some (behind, from)) =
    (1 ≤ length from) × Decides loop behind (tail from) (some (behind, tail from))

pub zero_or_more :
    (ps : List Piece) (t : List ℕ) (k : ℕ)
    → Matches ps (drop k t)
    → Matches ps t ⊎ ((k : ℕ) × Matches ps (drop (suc k) t))
zero_or_more ps t zero m = inl m
zero_or_more ps t (suc k) m = inr (k, m)

pub backtrack-Alternative :
    (loop : Rounds) (star : Star)
    → Retries loop star
    → (backtrack loop star ≡ true) ↔ Alternative star
unfolding backtrack Retries Alternative
backtrack-Alternative loop none r = (λ e. absurd cc, λ a. absurd a)
backtrack-Alternative loop (some (behind, [])) (h, d) = absurd (omega arith)
backtrack-Alternative loop (some (behind, c ∷ t)) (h, (to, from)) = (
  λ e. elim (to e) [ inl m ↦ (0, m) | inr (k, m) ↦ (suc k, m) ],
  λ (k, m). from (zero_or_more (pieces behind) t k m),
)

-- One round, on the first part of the pattern and a text `c ∷ t`, where the rounds that follow decide.
pub round_piece-Decides :
    (loop : Rounds) (q : Piece) (p : List ℕ) (c : ℕ) (t : List ℕ) (star : Star)
    → Reached (q ∷ pieces p) (c ∷ t) star
    → Retries loop star
    → (Reached (pieces p) t star → Decides loop p t star)
    → (q ≡ any_run → Decides loop p (c ∷ t) (some (p, c ∷ t)))
    → (round_piece loop (q, p) c t star ≡ true)
      ↔ (Matches (q ∷ pieces p) (c ∷ t) ⊎ Alternative star)
unfolding round_piece Alternative
round_piece-Decides loop any_run p c t star r retries next new_star =
    let (to, from) = new_star refl in
    (
      λ e. inl (elim (to e) [ inl m ↦ (0, m) | inr (k, m) ↦ (suc k, m) ]),
      λ g. elim g [
        | inl (k, m) ↦ from (zero_or_more (pieces p) (c ∷ t) k m)
        | inr a ↦
            let (k, (j, m)) = Alternative-Reached (any_run ∷ pieces p) (c ∷ t) star r a in
            from (
              zero_or_more (pieces p) (c ∷ t) (suc k + j)
                (subst (Matches (pieces p)) (drop-drop (suc k) j (c ∷ t)) m))
      ],
    )
round_piece-Decides loop any_one p c t star r retries next new_star =
    let (to, from) = next (Reached-step any_one (pieces p) c t star (one_step (pieces p)) r) in
    (
      λ e. elim (to e) [ inl m ↦ inl (c, (t, refl, m)) | inr a ↦ inr a ],
      λ g. elim g [
        | inl (c', (rest, e, m)) ↦ from (inl (subst (Matches (pieces p)) (tail-eq e) m))
        | inr a ↦ from (inr a)
      ],
    )
round_piece-Decides loop (literal d) p c t star r retries next new_star =
    elim (Bool-cases (d == c)) [
      | inl h ↦
          let step : round_piece loop (literal d, p) c t star ≡ loop p t star = rw (h) refl in
          let (to, from) =
            next (Reached-step (literal d) (pieces p) c t star (literal_step d (pieces p)) r) in
          let same = (==_iff d c).0 h in
          (
            λ e. elim (to (sym step ∙ e)) [
              | inl m ↦ inl (t, ap (λ d. d ∷ t) (sym same), m)
              | inr a ↦ inr a
            ],
            λ g. step ∙ (elim g [
              | inl (rest, e, m) ↦ from (inl (subst (Matches (pieces p)) (tail-eq e) m))
              | inr a ↦ from (inr a)
            ]),
          )
      | inr h ↦
          let step : round_piece loop (literal d, p) c t star ≡ backtrack loop star = rw (h) refl in
          let (to, from) = backtrack-Alternative loop star retries in
          (
            λ e. inr (to (sym step ∙ e)),
            λ g. step ∙ (elim g [
              | inl (rest, e, m) ↦ absurd (let same = (==_iff d c).1 (head-eq e) in cc)
              | inr a ↦ from a
            ]),
          )
    ]
