-- ===== src/Query/Glob.antt =====
-- fpp_query/src/query/eval.rs: `glob_match`. A position in the pattern or the text is the list of the
-- characters from there on. The child shows what the loop decides.
pub mod Pieces
pub mod Rounds
pub mod Decides
use fpp_tools.Prelude.{
  ℕ, zero, suc, ◌+◌, ◌*◌, ◌==◌, Bool, true, false, List, [], ◌∷◌, Option, none, some, if◌then◌else◌,
  length,
}

abbrev pub tail : List ℕ → List ℕ
tail [] = []
tail (c ∷ cs) = cs

abbrev pub star_char : ℕ
star_char = b'*'

abbrev pub one_char : ℕ
one_char = b'?'

abbrev pub escape_char : ℕ
escape_char = b'\\'

-- The loop behind the text: whether the pattern is at its end once its stars are passed over.
unfoldable pub only_stars : List ℕ → Bool
only_stars [] = true
only_stars (d ∷ p) = let rest = only_stars p in if d == star_char then rest else false

-- The last star: the pattern behind it, and the text from which it is tried.
abbrev pub Star : Type 0
Star = Option (List ℕ × List ℕ)

-- The rounds that follow.
abbrev pub Rounds : Type 0
Rounds = List ℕ → List ℕ → Star → Bool

-- The star takes one more character.
unfoldable pub backtrack : Rounds → Star → Bool
backtrack loop none = false
backtrack loop (some (behind, from)) = loop behind (tail from) (some (behind, tail from))

-- The test that the escaped character of the pattern is that of the text.
unfoldable pub escaped : Rounds → List ℕ → ℕ → List ℕ → Star → Bool
unfolding backtrack
escaped loop [] c t star = backtrack loop star
escaped loop (e ∷ p) c t star =
    let next = loop p t star in let again = backtrack loop star in if e == c then next else again

abbrev pub has_char : List ℕ → Bool
has_char [] = false
has_char (c ∷ cs) = true

-- One round of the loop, on the pattern and on a text `c ∷ t`.
unfoldable pub round : Rounds → List ℕ → ℕ → List ℕ → Star → Bool
unfolding backtrack escaped
round loop [] c t star = backtrack loop star
round loop (d ∷ p) c t star =
    let new_star = loop p (c ∷ t) (some (p, c ∷ t)) in
    let next = loop p t star in
    let escape = escaped loop p c t star in
    let again = backtrack loop star in
    let plain = if d == c then next else again in
    if d == star_char
    then new_star
    else if d == one_char
    then next
    else if d == escape_char
    then (if has_char p then escape else plain)
    else plain

unfoldable pub glob_loop : ℕ → List ℕ → List ℕ → Star → Bool
unfolding round only_stars
glob_loop zero p t star = false
glob_loop (suc fuel) p [] star = only_stars p
glob_loop (suc fuel) p (c ∷ t) star = round (glob_loop fuel) p c t star

-- The number of rounds that a pattern and a text of these lengths can take.
abbrev pub round_bound : ℕ → ℕ → ℕ
round_bound p t = ((p + 1) * (t + 1) + t) * (p + t + 2) + (p + t) + 1

unfoldable pub glob_match : List ℕ → List ℕ → Bool
unfolding glob_loop
glob_match pattern text = glob_loop (round_bound (length pattern) (length text)) pattern text none
