-- ===== src/Topology/PortNumbers/Next.antt =====
-- fpp_analysis/src/semantics/resolve_topology/port_numbering_state.rs: `get_next_number` gives the least
-- unused number from its start on.
use fpp_tools.Prelude.{
  ℕ, zero, suc, ◌≤◌, ◌<◌, ◌≡◌, refl, true, false, List, [], ◌∷◌, ℤ, pos, ◌+ℤ◌, ◌≤ℤ◌, ◌==ℤ◌, leb_ℤ,
  if◌then◌else◌, length, arith, inl, inr, Bool-cases, +ℤ_parts, eq_of_parts, subst,
}
use fpp_tools.Topology.PortNumbers.{contains, search_number, get_next_number}

-- How many of the numbers are `n` or more.
abbrev count_from : ℤ → List ℤ → ℕ
count_from n [] = 0
count_from n (m ∷ ms) = let rest = count_from n ms in if leb_ℤ n m then suc rest else rest

count_from_bound : (n : ℤ) (ms : List ℤ) → count_from n ms ≤ length ms
count_from_bound n [] = omega arith
count_from_bound n (m ∷ ms) = ground (arith, count_from_bound n ms)

count_from_falls : (n : ℤ) (ms : List ℤ) → count_from (n +ℤ pos 1) ms ≤ count_from n ms
unfolding ◌+ℤ◌
count_from_falls n [] = omega arith
count_from_falls n (m ∷ ms) = ground (arith, count_from_falls n ms)

count_from-contains :
    (n : ℤ) (ms : List ℤ) → contains ms n ≡ true → count_from (n +ℤ pos 1) ms < count_from n ms
unfolding ◌+ℤ◌
count_from-contains n [] h = cc
count_from-contains n (m ∷ ms) h = elim (Bool-cases (n ==ℤ m)) [
  | inl e ↦ ground (arith, count_from_falls n ms)
  | inr e ↦ ground (arith, count_from-contains n ms (ground arith))
]

count_from_zero : (n : ℤ) (ms : List ℤ) → count_from n ms ≡ 0 → contains ms n ≡ false
count_from_zero n [] h = refl
count_from_zero n (m ∷ ms) h = elim (Bool-cases (leb_ℤ n m)) [
  | inl e ↦ absurd (ground arith)
  | inr e ↦ ground (arith, count_from_zero n ms (ground arith))
]

search_number-unused :
    (fuel : ℕ) (n : ℤ) (used : List ℤ)
    → count_from n used ≤ fuel
    → contains used (search_number fuel n used) ≡ false
unfolding search_number
search_number-unused zero n used h = count_from_zero n used (omega arith)
search_number-unused (suc fuel) n used h = elim (Bool-cases (contains used n)) [
  | inl e ↦
      let step : count_from (n +ℤ pos 1) used ≤ fuel =
        omega (arith, count_from-contains n used e) in
      rw e (search_number-unused fuel (n +ℤ pos 1) used step)
  | inr e ↦ rw e e
]

search_number-from : (fuel : ℕ) (n : ℤ) (used : List ℤ) → n ≤ℤ search_number fuel n used
unfolding search_number
search_number-from zero n used = omega arith
search_number-from (suc fuel) n used = elim (Bool-cases (contains used n)) [
  | inl e ↦ rw e (omega (arith, search_number-from fuel (n +ℤ pos 1) used, +ℤ_parts n (pos 1)))
  | inr e ↦ rw e (omega arith)
]

search_number-bound :
    (fuel : ℕ) (n : ℤ) (used : List ℤ) → search_number fuel n used ≤ℤ n +ℤ pos fuel
unfolding search_number
search_number-bound zero n used = omega (arith, +ℤ_parts n (pos 0))
search_number-bound (suc fuel) n used = elim (Bool-cases (contains used n)) [
  | inl e ↦ rw e (
      omega (
        arith,
        search_number-bound fuel (n +ℤ pos 1) used,
        +ℤ_parts n (pos 1),
        +ℤ_parts n (pos (suc fuel)),
        +ℤ_parts (n +ℤ pos 1) (pos fuel),
      ))
  | inr e ↦ rw e (omega (arith, +ℤ_parts n (pos (suc fuel))))
]

search_number-least :
    (fuel : ℕ) (n m : ℤ) (used : List ℤ)
    → n ≤ℤ m
    → m +ℤ pos 1 ≤ℤ search_number fuel n used
    → contains used m ≡ true
unfolding search_number
search_number-least zero n m used h k = absurd (omega (arith, +ℤ_parts m (pos 1)))
search_number-least (suc fuel) n m used h k = elim (Bool-cases (contains used n)) [
  | inl e ↦ (elim (Bool-cases (n ==ℤ m)) [
    | inl same ↦ subst (λ x. contains used x ≡ true) (eq_of_parts n m (ground arith)) e
    | inr other ↦
        search_number-least fuel (n +ℤ pos 1) m used (ground (arith, +ℤ_parts n (pos 1)))
          (rw (search_number, e) at k)
  ])
  | inr e ↦
      let k' : m +ℤ pos 1 ≤ℤ n = rw (search_number, e) at k in
      absurd (omega (arith, +ℤ_parts m (pos 1)))
]

-- The next port number is the least one from the start on that is not used, and it is within as many
-- steps of the start as there are used numbers.
pub get_next_number_lem :
    (from : ℤ) (used : List ℤ)
    → (contains used (get_next_number from used) ≡ false)
      × (from ≤ℤ get_next_number from used)
      × (get_next_number from used ≤ℤ from +ℤ pos (length used))
      × ((m : ℤ) → from ≤ℤ m → m +ℤ pos 1 ≤ℤ get_next_number from used → contains used m ≡ true)
unfolding get_next_number
get_next_number_lem from used = (
  search_number-unused (length used) from used (count_from_bound from used),
  search_number-from (length used) from used,
  search_number-bound (length used) from used,
  λ m h k. search_number-least (length used) from m used h k,
)
