-- ===== src/Query/Glob/Decides.antt =====
-- fpp_query/src/query/eval.rs: `glob_match` decides whether the text can be cut into what the parts of
-- the pattern stand for.
use native.Mathlib.Nat.{suc-mul, mul-le-mul_right}
use fpp_tools.Prelude.{
  ℕ, zero, suc, ◌+◌, ◌*◌, ◌≤◌, ◌<◌, ◌≡◌, ◌↔◌, ◌⊎◌, inl, inr, refl, sym, subst, true, List, [], ◌∷◌,
  none, some, length, arith,
}
use fpp_tools.Query.Glob.{Star, Rounds, round, glob_loop, round_bound, glob_match, only_stars}
use fpp_tools.Query.Glob.Pieces.{
  piece, pieces, pieces-cons, Matches, round_piece, round-piece, piece-shorter, drop-empty,
  only_stars-Matches,
}
use fpp_tools.Query.Glob.Rounds.{
  Alternative, Reached, Alternative-Reached, Decides, Retries, backtrack-Alternative,
  round_piece-Decides,
}

-- The lengths that a star stands for: of the pattern behind it and of the text from it, or more than
-- those of the whole pattern and the text before the first star.
behind_length : ℕ → Star → ℕ
behind_length n none = n + 1
behind_length n (some (behind, from)) = length behind

from_length : ℕ → Star → ℕ
from_length m none = m
from_length m (some (behind, from)) = length from

rank : ℕ → ℕ → List ℕ → List ℕ → Star → ℕ
rank n m p t star =
    (behind_length n star * (m + 1) + from_length m star) * (n + m + 2) + (length p + length t)

record Fits (n m : ℕ) (p t : List ℕ) (star : Star) : Type 0 where
  pattern : length p ≤ behind_length n star
  text : length t ≤ from_length m star
  behind : behind_length n star ≤ n + 1
  from : from_length m star ≤ m

-- The order of the rounds: of two numbers in a base, by the higher digit first.
digits_lt : (base x x' y y' : ℕ) → x' < x → y' < base → x' * base + y' < x * base + y
digits_lt base x x' y y' h k =
    let step = mul-le-mul_right {m = suc x'} {n = x} base (omega arith) in
    omega (arith, step, suc-mul x' base)

rank-new_star :
    (n m d : ℕ) (p p' t : List ℕ) (star : Star)
    → length p' ≤ length p
    → Fits n m (d ∷ p) t star
    → rank n m p' t (some (p', t)) < rank n m (d ∷ p) t star
unfolding rank behind_length from_length
rank-new_star n m d p p' t star h f =
    digits_lt (n + m + 2) _ _ _ _
      (digits_lt (m + 1) _ _ _ _ (omega (arith, f.pattern)) (omega (arith, f.text, f.from)))
      (omega (arith, f.pattern, f.behind, f.text, f.from))

rank-retry :
    (n m c : ℕ) (p t behind from : List ℕ)
    → Fits n m p t (some (behind, c ∷ from))
    → rank n m behind from (some (behind, from)) < rank n m p t (some (behind, c ∷ from))
unfolding rank behind_length from_length
rank-retry n m c p t behind from f =
    digits_lt (n + m + 2) _ _ _ _ (omega arith) (omega (arith, f.behind, f.from))

-- The fuel is enough for the rounds that are left.
rank-step :
    (n m d c : ℕ) (p p' t : List ℕ) (star : Star)
    → length p' ≤ length p
    → rank n m p' t star < rank n m (d ∷ p) (c ∷ t) star
unfolding rank
rank-step n m d c p p' t star h = omega arith

Fits-retry :
    (n m : ℕ) (p t behind from : List ℕ) (c : ℕ)
    → Fits n m p t (some (behind, c ∷ from))
    → Fits n m behind from (some (behind, from))
unfolding behind_length from_length
Fits-retry n m p t behind from c f = record {
  pattern = omega arith;
  text = omega arith;
  behind = f.behind;
  from = omega (arith, f.from);
}

Fits-step :
    (n m d c : ℕ) (p p' t : List ℕ) (star : Star)
    → length p' ≤ length p
    → Fits n m (d ∷ p) (c ∷ t) star
    → Fits n m p' t star
Fits-step n m d c p p' t star h f = record {
  pattern = omega (arith, f.pattern);
  text = omega (arith, f.text);
  behind = f.behind;
  from = f.from;
}

Fits-new_star :
    (n m d : ℕ) (p p' t : List ℕ) (star : Star)
    → length p' ≤ length p
    → Fits n m (d ∷ p) t star
    → Fits n m p' t (some (p', t))
unfolding behind_length from_length
Fits-new_star n m d p p' t star h f = record {
  pattern = omega arith;
  text = omega arith;
  behind = omega (arith, f.pattern, f.behind);
  from = omega (arith, f.text, f.from);
}

Reached-new : (p t : List ℕ) → Reached (pieces p) t (some (p, t))
unfolding Reached
Reached-new p t = (0, refl, λ u m. m)

Fits-start : (n m : ℕ) (p t : List ℕ) → length p ≡ n → length t ≡ m → Fits n m p t none
unfolding behind_length from_length
Fits-start n m p t h k = record {
  pattern = omega arith;
  text = omega arith;
  behind = omega arith;
  from = omega arith;
}

rank-start :
    (p t : List ℕ) → rank (length p) (length t) p t none < round_bound (length p) (length t)
unfolding rank behind_length from_length
rank-start p t = omega arith

-- The text at its end.
end-Decides :
    (p : List ℕ) (star : Star)
    → Reached (pieces p) [] star
    → (only_stars p ≡ true) ↔ (Matches (pieces p) [] ⊎ Alternative star)
end-Decides p star r =
    let (to, from) = only_stars-Matches p in
    (
      λ e. inl (to e),
      λ g. elim g [
        | inl m ↦ from m
        | inr a ↦
            let (k, m) = Alternative-Reached (pieces p) [] star r a in
            from (subst (Matches (pieces p)) (drop-empty (suc k)) m)
      ],
    )

-- The rounds that follow decide, from every state of a smaller rank than this one.
abbrev DecidesBelow : Rounds → ℕ → ℕ → List ℕ → List ℕ → Star → Type 0
DecidesBelow loop n m p t star =
    (p' t' : List ℕ) (star' : Star)
    → Reached (pieces p') t' star'
    → Fits n m p' t' star'
    → rank n m p' t' star' < rank n m p t star
    → Decides loop p' t' star'

Retries-lem :
    (loop : Rounds) (n m c : ℕ) (p t : List ℕ) (star : Star)
    → Fits n m p (c ∷ t) star
    → DecidesBelow loop n m p (c ∷ t) star
    → Retries loop star
unfolding Retries Reached from_length
Retries-lem loop n m c p t none f below = tt
Retries-lem loop n m c p t (some (behind, [])) f below = absurd (omega (arith, f.text))
Retries-lem loop n m c p t (some (behind, c' ∷ from)) f below = (
  omega arith,
  below behind from (some (behind, from)) (0, refl, λ u m. m)
      (Fits-retry n m p (c ∷ t) behind from c' f) (rank-retry n m c' p (c ∷ t) behind from f),
)

round-Decides :
    (loop : Rounds) (n m c : ℕ) (p t : List ℕ) (star : Star)
    → Reached (pieces p) (c ∷ t) star
    → Fits n m p (c ∷ t) star
    → DecidesBelow loop n m p (c ∷ t) star
    → (round loop p c t star ≡ true) ↔ (Matches (pieces p) (c ∷ t) ⊎ Alternative star)
unfolding round pieces
round-Decides loop n m c [] t star r f below =
    let (to, from) = backtrack-Alternative loop star (Retries-lem loop n m c [] t star f below) in
    (λ e. inr (to e), λ g. elim g [ inl e ↦ absurd cc | inr a ↦ from a ])
round-Decides loop n m c (d ∷ p) t star r f below =
    let (q, p') = piece d p in
    let shorter = piece-shorter d p in
    let at_pieces = pieces-cons d p in
    let step =
      round_piece-Decides loop q p' c t star (subst (λ ps. Reached ps (c ∷ t) star) at_pieces r)
        (Retries-lem loop n m c (d ∷ p) t star f below)
        (λ r'.
          below p' t star r' (Fits-step n m d c p p' t star shorter f)
            (rank-step n m d c p p' t star shorter))
        (λ e.
          below p' (c ∷ t) (some (p', c ∷ t)) (Reached-new p' (c ∷ t))
            (Fits-new_star n m d p p' (c ∷ t) star shorter f)
            (rank-new_star n m d p p' (c ∷ t) star shorter f)) in
    let same = round-piece loop d p c t star in
    subst (λ b. (b ≡ true) ↔ (Matches (pieces (d ∷ p)) (c ∷ t) ⊎ Alternative star)) (sym same)
      (subst
        (λ ps.
          (round_piece loop (piece d p) c t star ≡ true) ↔ (Matches ps (c ∷ t) ⊎ Alternative star))
        (sym at_pieces) step)

glob_loop-Decides :
    (n m fuel : ℕ) (p t : List ℕ) (star : Star)
    → Reached (pieces p) t star
    → Fits n m p t star
    → rank n m p t star < fuel
    → Decides (glob_loop fuel) p t star
unfolding glob_loop
glob_loop-Decides n m zero p t star r f h = absurd (omega arith)
glob_loop-Decides n m (suc fuel) p [] star r f h = end-Decides p star r
glob_loop-Decides n m (suc fuel) p (c ∷ t) star r f h =
    round-Decides (glob_loop fuel) n m c p t star r f
      λ p' t' star' r' f' lower. glob_loop-Decides n m fuel p' t' star' r' f' (omega arith)

-- `glob_match` holds exactly where the text is what the parts of the pattern stand for: `*` any run of
-- characters, `?` any one character, a backslash and a character that character, and every other
-- character itself. The loop, which only goes back to the last star, always ends.
pub glob_match_iff :
    (pattern text : List ℕ) → (glob_match pattern text ≡ true) ↔ Matches (pieces pattern) text
unfolding glob_match Reached Alternative
glob_match_iff pattern text =
    let (to, from) =
      glob_loop-Decides (length pattern) (length text) (round_bound (length pattern) (length text))
        pattern text none tt (Fits-start (length pattern) (length text) pattern text refl refl)
        (rank-start pattern text) in
    (λ e. elim (to e) [ inl m ↦ m | inr a ↦ absurd a ], λ m. from (inl m))
