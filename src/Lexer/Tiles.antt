-- ===== src/Lexer/Tiles.antt =====
-- fpp_lexer/src/lexer.rs: the tokens of a text cover it, each the text that its kind says.
use fpp_tools.Prelude.{
  ℕ, zero, suc, ◌≤◌, ◌<◌, ◌≡◌, refl, sym, ap, subst, ◌∙◌, Bool, false, List, [], ◌∷◌, Option, some, All,
  length, length-append, arith, inl, inr,
}
use fpp_tools.Lexer.Chars.{byte_len}
use fpp_tools.Lexer.Token.{Token}
use fpp_tools.Lexer.Cursor.{Lexer, new, reset_token}
use fpp_tools.Lexer.Next.{yielded, finished, next, run, tokens}
use fpp_tools.Lexer.Skips.{chars-cases}
use fpp_tools.Lexer.Lexes.{Inside}
use fpp_tools.Lexer.Steps.{next-end}
use fpp_tools.Lexer.Follows.{Spelled, Tiles, Between, next-Follows}

-- The run from a state between two tokens, with enough fuel.
record Runs (x : ℕ → Bool) (content : List ℕ) (fuel : ℕ) (s : Lexer) : Type 0 where
  found : List Token
  end : Lexer
  result : run x fuel s ≡ some (found, end)
  tiles : Tiles Spelled found s.chars
  errors_inside : All (Inside 0 (byte_len content)) end.errors
  going : end.stalled ≡ false

run-finished :
    (x : ℕ → Bool) (fuel : ℕ) (s t : Lexer)
    → next x s ≡ finished t
    → run x (suc fuel) s ≡ some ([], t)
unfolding run
run-finished x fuel s t e = rw (run, e) refl

run-yielded :
    (x : ℕ → Bool) (fuel : ℕ) (s t u : Lexer) (token : Token) (found : List Token)
    → next x s ≡ yielded token t
    → run x fuel t ≡ some (found, u)
    → run x (suc fuel) s ≡ some (token ∷ found, u)
unfolding run
run-yielded x fuel s t u token found e k = rw (run, e, k) refl

text-nonempty : (text : List ℕ) → 1 ≤ byte_len text → 1 ≤ length text
unfolding byte_len
text-nonempty [] h = absurd (omega arith)
text-nonempty (c ∷ text) h = omega arith

run-Runs :
    (x : ℕ → Bool) (content : List ℕ) (fuel : ℕ) (s : Lexer)
    → Between content s
    → length s.chars < fuel
    → Runs x content fuel s
unfolding reset_token
run-Runs x content zero s h k = absurd (omega arith)
run-Runs x content (suc fuel) s h k = elim (chars-cases s.chars) [
  | inl e ↦ record {
    found = [];
    end = reset_token s;
    result = run-finished x fuel s (reset_token s) (next-end x s e);
    tiles = e;
    errors_inside = h.errors_inside;
    going = h.going;
  }
  | inr (c, (cs, e)) ↦
      let step = next-Follows x content s c cs h e in
      let shorter = ap length step.reads in
      let rest = run-Runs x content fuel step.after step.between (
        omega (
          arith,
          k,
          shorter,
          length-append step.text step.after.chars,
          text-nonempty step.text (omega (arith, step.counts, step.positive)),
        )) in
      record {
        found = step.token ∷ rest.found;
        end = rest.end;
        result =
            run-yielded x fuel s step.after rest.end step.token rest.found step.yields rest.result;
        tiles = (
          step.text,
          (step.after.chars, step.reads, step.counts, step.positive, step.spelled, rest.tiles),
        );
        errors_inside = rest.errors_inside;
        going = rest.going;
      }
]

Between-new : (content : List ℕ) → Between content (new content)
unfolding new byte_len
Between-new content = record {
  done = [];
  same = refl;
  splits = refl;
  bytes = refl;
  errors_inside = tt;
  going = refl;
}

-- The lexer ends on every text and never panics. Its tokens, laid end to end, are the text: they cut
-- it into parts that are not empty, each as many bytes long as its token says. And a token is a
-- keyword exactly where its part of the text is the spelling of that keyword.
pub tokens-Tiles :
    (x : ℕ → Bool) (content : List ℕ)
    → (found : List Token) × ((end : Lexer) × (tokens x content ≡ some (found, end))
        × Tiles Spelled found content)
unfolding tokens new
tokens-Tiles x content =
    let runs =
      run-Runs x content (suc (length content)) (new content) (Between-new content) (omega arith) in
    (runs.found, (runs.end, runs.result, runs.tiles))

-- The loops of the lexer end on every text: in the whole run none of them goes on beyond its fuel, which
-- would mark the state for good. These are `eat_while`, the loop over the initial spaces of a
-- multi-line string, and those over the characters of multi-line and of single-line strings; the
-- loop over the tokens ends too.
pub loops_end :
    (x : ℕ → Bool) (content : List ℕ)
    → (found : List Token)
      × ((end : Lexer) × (tokens x content ≡ some (found, end)) × (end.stalled ≡ false))
unfolding tokens new
loops_end x content =
    let runs =
      run-Runs x content (suc (length content)) (new content) (Between-new content) (omega arith) in
    (runs.found, (runs.end, runs.result, runs.going))

-- Every error of the lexer covers a byte at least, and lies within the text.
pub tokens-Inside :
    (x : ℕ → Bool) (content : List ℕ) (found : List Token) (end : Lexer)
    → tokens x content ≡ some (found, end)
    → All (Inside 0 (byte_len content)) end.errors
unfolding tokens new
tokens-Inside x content found end e =
    let runs =
      run-Runs x content (suc (length content)) (new content) (Between-new content) (omega arith) in
    let result = runs.result in
    subst (λ t. All (Inside 0 (byte_len content)) t.errors) (end_same _ _ _ _ (sym result ∙ e))
      runs.errors_inside
  where
    end_same :
        (xs ys : List Token) (t u : Lexer)
        → Path (Option (List Token × Lexer)) (some (xs, t)) (some (ys, u))
        → t ≡ u
    end_same xs ys t u h = cc
