-- ===== src/Prelude/Recursion.antt =====
-- General recursion on fuel. `body` is a function of the source with its recursive calls handed in;
-- where each call is made at a smaller measure, enough fuel gives one result, and that result
-- satisfies the recursion equation of the source.
use Prim.Native.Nat.{ℕ, zero, suc, ◌<◌}
use mathlib.Core.Path.{◌≡◌}
use native.Mathlib.Omega.{arith}

module _ {ℓ κ} {A : Type ℓ} {R : Type κ} where
  pub iterate : ((A → R) → A → R) → (A → R) → ℕ → A → R
  iterate body stuck zero a = stuck a
  iterate body stuck (suc n) a = body (iterate body stuck n) a

  -- The body reads its recursive calls only at a smaller measure.
  abbrev pub CallsBelow : (A → ℕ) → ((A → R) → A → R) → Type (ℓ ⊔ κ)
  CallsBelow measure body =
      (f g : A → R) (a : A) → ((b : A) → measure b < measure a → f b ≡ g b) → body f a ≡ body g a

  unfoldable pub recurse : (A → ℕ) → ((A → R) → A → R) → (A → R) → A → R
  unfolding iterate
  recurse measure body stuck a = iterate body stuck (suc (measure a)) a

module _ {ℓ κ} {A : Type ℓ} {R : Type κ} (measure : A → ℕ) (body : (A → R) → A → R)
    (below : CallsBelow measure body) where
  -- Above the measure, neither the fuel nor what is answered where it runs out makes a difference.
  pub iterate_any :
      (stuck other : A → R) (n k : ℕ) (a : A)
      → measure a < n
      → measure a < k
      → iterate body stuck n a ≡ iterate body other k a
  unfolding iterate
  iterate_any stuck other zero k a h h' = absurd (omega arith)
  iterate_any stuck other (suc n) zero a h h' = absurd (omega arith)
  iterate_any stuck other (suc n) (suc k) a h h' =
      below (iterate body stuck n) (iterate body other k) a
        λ b hb. iterate_any stuck other n k b (omega arith) (omega arith)

  -- The recursion equation.
  pub recurse_lem :
      (stuck : A → R) (a : A) → recurse measure body stuck a ≡ body (recurse measure body stuck) a
  unfolding recurse
  recurse_lem stuck a =
      below (iterate body stuck (measure a)) (recurse measure body stuck) a
        λ b hb. iterate_any stuck stuck (measure a) (suc (measure b)) b hb (omega arith)

  pub iterate-recurse :
      (stuck other : A → R) (n : ℕ) (a : A)
      → measure a < n
      → iterate body other n a ≡ recurse measure body stuck a
  unfolding recurse
  iterate-recurse stuck other n a h = iterate_any other stuck n (suc (measure a)) a h (omega arith)
