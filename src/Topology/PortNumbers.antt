-- ===== src/Topology/PortNumbers.antt =====
-- fpp_analysis/src/semantics/resolve_topology/port_numbering_state.rs and general_port_numbering.rs:
-- the choice of the port numbers that a model leaves open. A topology's map from connections to port
-- numbers is an association list, the latest entry first; a connection is a key with an equality.
pub mod Next
pub mod Output
pub mod Input
pub mod Distinct
use fpp_tools.Prelude.{
  ℕ, zero, suc, Bool, true, false, List, [], ◌∷◌, Option, none, some, ℤ, pos, ◌+ℤ◌, ◌==ℤ◌,
  if◌then◌else◌, any, length,
}

abbrev pub contains : List ℤ → ℤ → Bool
contains used n = any (λ m. n ==ℤ m) used

pub record PortNumberingState : Type 0 where
  pub used_port_numbers : List ℤ
  pub next_port_number : ℤ

-- The loop of `get_next_number`, on fuel.
unfoldable pub search_number : ℕ → ℤ → List ℤ → ℤ
search_number zero n used = n
search_number (suc fuel) n used =
    let next = search_number fuel (n +ℤ pos 1) used in if contains used n then next else n

unfoldable pub get_next_number : ℤ → List ℤ → ℤ
unfolding search_number
get_next_number from used = search_number (length used) from used

unfoldable pub use_port_number : PortNumberingState → ℤ → PortNumberingState
unfolding get_next_number
use_port_number s n =
    let used = n ∷ s.used_port_numbers in
    record { used_port_numbers = used; next_port_number = get_next_number s.next_port_number used }

unfoldable pub use_next_port_number : PortNumberingState → PortNumberingState
unfolding use_port_number
use_next_port_number s = use_port_number s s.next_port_number

unfoldable pub get_port_number : PortNumberingState → PortNumberingState × ℤ
unfolding use_next_port_number
get_port_number s = (use_next_port_number s, s.next_port_number)

unfoldable pub initial : List ℤ → PortNumberingState
unfolding get_next_number
initial used = record { used_port_numbers = used; next_port_number = get_next_number (pos 0) used }

module _ {ℓ} {Connection : Type ℓ} (eq : Connection → Connection → Bool) where
  abbrev pub NumberMap : Type ℓ
  NumberMap = List (Connection × ℤ)

  -- `Topology::get_port_number`, on the map of the port's direction.
  unfoldable pub number_of : NumberMap → Connection → Option ℤ
  number_of [] c = none
  number_of ((d, n) ∷ m) c = let rest = number_of m c in if eq d c then some n else rest

  -- `Topology::assign_port_number`.
  abbrev pub assign_port_number : NumberMap → Connection → ℤ → NumberMap
  assign_port_number m c n = (c, n) ∷ m

  unfoldable pub get_used_port_numbers : NumberMap → List Connection → List ℤ
  unfolding number_of
  get_used_port_numbers m [] = []
  get_used_port_numbers m (c ∷ cs) =
      let rest = get_used_port_numbers m cs in
      elim (number_of m c) [ some n ↦ n ∷ rest | none ↦ rest ]

  -- Every connection to an input port without a number gets number 0.
  unfoldable pub number_input_port_array : NumberMap → List Connection → NumberMap
  unfolding number_of
  number_input_port_array m [] = m
  number_input_port_array m (c ∷ cs) =
      let kept = number_input_port_array m cs in
      let numbered = number_input_port_array (assign_port_number m c (pos 0)) cs in
      elim (number_of m c) [ some n ↦ kept | none ↦ numbered ]

  -- The loop of `number_output_port_array`.
  unfoldable pub number_outputs : PortNumberingState → NumberMap → List Connection → NumberMap
  unfolding number_of get_port_number
  number_outputs state m [] = m
  number_outputs state m (c ∷ cs) =
      let (state1, n) = get_port_number state in
      let kept = number_outputs state m cs in
      let numbered = number_outputs state1 (assign_port_number m c n) cs in
      elim (number_of m c) [ some k ↦ kept | none ↦ numbered ]

  unfoldable pub number_output_port_array : NumberMap → List Connection → NumberMap
  unfolding number_outputs get_used_port_numbers initial
  number_output_port_array m cs = number_outputs (initial (get_used_port_numbers m cs)) m cs
