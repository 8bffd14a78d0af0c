-- ===== src/Examples/Topologies.antt =====
-- fpp_analysis/src/semantics/resolve_topology: the theorems on port numbers at concrete topologies.
use fpp_tools.Prelude.{
  ℕ, ◌≡◌, refl, true, false, List, [], ◌∷◌, some, ℤ, pos, ◌==◌, ==_iff, ◌+ℤ◌, ◌≤ℤ◌,
}
use fpp_tools.Topology.PortNumbers.{
  contains, get_next_number, NumberMap, number_of, number_output_port_array,
  number_input_port_array,
}
use fpp_tools.Topology.PortNumbers.Next.{get_next_number_lem}
use fpp_tools.Topology.PortNumbers.Output.{among}
use fpp_tools.Topology.PortNumbers.Input.{number_or_zero, number_input_port_array_lem}
use fpp_tools.Topology.PortNumbers.Distinct.{number_output_port_array_lem}

get_next_number_lem_example :
    (contains (pos 0 ∷ pos 1 ∷ pos 3 ∷ []) (pos 2) ≡ false)
    × (pos 0 ≤ℤ pos 2)
    × (pos 2 ≤ℤ pos 0 +ℤ pos 3)
    × ((m : ℤ) → pos 0 ≤ℤ m → m +ℤ pos 1 ≤ℤ pos 2 → contains (pos 0 ∷ pos 1 ∷ pos 3 ∷ []) m ≡ true)
unfolding get_next_number ◌+ℤ◌
get_next_number_lem_example = get_next_number_lem (pos 0) (pos 0 ∷ pos 1 ∷ pos 3 ∷ [])

-- Four connections from one port array, of which the third has number 1.
abbrev numbers : NumberMap ◌==◌
numbers = (12, pos 1) ∷ []

abbrev port_array : List ℕ
port_array = 10 ∷ 11 ∷ 12 ∷ 13 ∷ []

numbered :
    number_output_port_array ◌==◌ numbers port_array
    ≡ (13, pos 3) ∷ (11, pos 2) ∷ (10, pos 0) ∷ (12, pos 1) ∷ []
unfolding number_output_port_array ◌+ℤ◌
numbered = refl

number_output_port_array_lem_example :
    ((d : ℕ)
      → among ◌==◌ port_array d ≡ true
      → (n : ℤ) × (number_of ◌==◌ (number_output_port_array ◌==◌ numbers port_array) d ≡ some n))
    × ((d : ℕ) (n : ℤ)
        → number_of ◌==◌ numbers d ≡ some n
        → number_of ◌==◌ (number_output_port_array ◌==◌ numbers port_array) d ≡ some n)
    × ((d : ℕ)
        → among ◌==◌ port_array d ≡ false
        → number_of ◌==◌ (number_output_port_array ◌==◌ numbers port_array) d
          ≡ number_of ◌==◌ numbers d)
    × ((d d' : ℕ) (n : ℤ)
        → among ◌==◌ port_array d ≡ true
        → among ◌==◌ port_array d' ≡ true
        → (d == d') ≡ false
        → number_of ◌==◌ (number_output_port_array ◌==◌ numbers port_array) d ≡ some n
        → number_of ◌==◌ (number_output_port_array ◌==◌ numbers port_array) d' ≡ some n
        → (number_of ◌==◌ numbers d ≡ some n) × (number_of ◌==◌ numbers d' ≡ some n))
number_output_port_array_lem_example = number_output_port_array_lem ◌==◌ ==_iff numbers port_array

number_input_port_array_lem_example :
    (among ◌==◌ port_array 11 ≡ true
      → number_of ◌==◌ (number_input_port_array ◌==◌ numbers port_array) 11
        ≡ some (number_or_zero (number_of ◌==◌ numbers 11)))
    × (among ◌==◌ port_array 11 ≡ false
        → number_of ◌==◌ (number_input_port_array ◌==◌ numbers port_array) 11
          ≡ number_of ◌==◌ numbers 11)
number_input_port_array_lem_example = number_input_port_array_lem ◌==◌ ==_iff numbers port_array 11
