-- ===== src/Topology/Matching.antt =====
-- fpp_analysis/src/semantics/resolve_topology/matched_port_numbering.rs: the numbering of the connections
-- at two port arrays that a component matches. A message is kept as its kind, its numbers and the
-- connections that it shows.
pub mod Pairs
pub mod Instances
use fpp_tools.Prelude.{
  ℕ, Bool, true, false, List, [], ◌∷◌, Option, none, some, ℤ, leb_ℤ, ◌==ℤ◌, if◌then◌else◌, Result,
  ok, err, and_then, find_map, length, leb,
}
use fpp_tools.Topology.PortNumbers.{
  PortNumberingState, use_port_number, get_port_number, initial, NumberMap, number_of,
  assign_port_number,
}

pub data Direction : Type 0 where
  input output : Direction

-- What the numbering reads of a port instance.
pub record PortInstance : Type 0 where
  pub direction : Option Direction
  pub port_array_size : ℤ

abbrev pub is_input : PortInstance → Bool
is_input pi = elim pi.direction [
  | none ↦ false
  | some d ↦ (elim d [ input ↦ true | output ↦ false ])
]

pub data NumberingError {ℓ} (Connection : Type ℓ) : Type ℓ where
  mismatched_port_numbers : ℤ → ℤ → NumberingError Connection
  -- The connection numbered, the number, the connection that implies it, and the one that has it.
  implicit_duplicate_connection :
      Connection → ℤ → Connection → Connection → NumberingError Connection
  no_port_available : Connection → Connection → NumberingError Connection
  missing_connection : Connection → NumberingError Connection
  -- No message of the source: an `expect` that fails.
  no_matching_instance : NumberingError Connection

module _ {ℓ} {Connection : Type ℓ} (eq : Connection → Connection → Bool) where
  -- The number maps of the topology.
  pub record Numbers : Type ℓ where
    pub from_port_number_map : NumberMap eq
    pub to_port_number_map : NumberMap eq

  unfoldable pub port_number_at : Numbers → PortInstance → Connection → Option ℤ
  unfolding number_of
  port_number_at t pi c =
      if is_input pi
      then number_of eq t.to_port_number_map c
      else number_of eq t.from_port_number_map c

  unfoldable pub assign_number_at : Numbers → PortInstance → Connection → ℤ → Numbers
  assign_number_at t pi c n =
      if is_input pi
      then record t { to_port_number_map = assign_port_number eq t.to_port_number_map c n }
      else record t { from_port_number_map = assign_port_number eq t.from_port_number_map c n }

  abbrev pub PortConnectionMap : Type ℓ
  PortConnectionMap = List (ℤ × Connection)

  unfoldable pub connection_at : PortConnectionMap → ℤ → Option Connection
  connection_at m n = find_map (λ (k, c). if k ==ℤ n then some c else none) m

  -- The maps from component instances to connections are arguments of `assign_numbers`.
  pub record State : Type ℓ where
    pub pi1 : PortInstance
    pub pcm1 : PortConnectionMap
    pub pi2 : PortInstance
    pub pcm2 : PortConnectionMap
    pub numbering : PortNumberingState

  abbrev pub update_port_connection_map1 : State → ℤ → Connection → State
  update_port_connection_map1 s n c = record s {
    pcm1 = (n, c) ∷ s.pcm1;
    numbering = use_port_number s.numbering n;
  }

  abbrev pub update_port_connection_map2 : State → ℤ → Connection → State
  update_port_connection_map2 s n c = record s {
    pcm2 = (n, c) ∷ s.pcm2;
    numbering = use_port_number s.numbering n;
  }

  abbrev pub NumberingResult : Type ℓ
  NumberingResult = Result (Numbers × State) (NumberingError Connection)

  -- The case where neither port has a number.
  unfoldable pub number_both : Numbers → State → Connection → Connection → NumberingResult
  unfolding assign_number_at
  number_both t s c1 c2 =
      let (numbering, n) = get_port_number s.numbering in
      let s0 : State = record s { numbering = numbering } in
      if leb_ℤ s.pi1.port_array_size n
      then err (no_port_available c1 c2)
      else ok (
        assign_number_at (assign_number_at t s.pi1 c1 n) s.pi2 c2 n,
        update_port_connection_map2 (update_port_connection_map1 s0 n c1) n c2,
      )

  -- The match on the two numbers.
  unfoldable pub number_pair :
      Numbers → State → Connection → Connection → Option ℤ → Option ℤ → NumberingResult
  unfolding number_both connection_at
  number_pair t s c1 c2 (some n1) (some n2) =
      if n1 ==ℤ n2 then ok (t, s) else err (mismatched_port_numbers n1 n2)
  number_pair t s c1 c2 (some n) none = elim (connection_at s.pcm2 n) [
    | some prev ↦ err (implicit_duplicate_connection c2 n c1 prev)
    | none ↦ ok (assign_number_at t s.pi2 c2 n, update_port_connection_map2 s n c2)
  ]
  number_pair t s c1 c2 none (some n) = elim (connection_at s.pcm1 n) [
    | some prev ↦ err (implicit_duplicate_connection c1 n c2 prev)
    | none ↦ ok (assign_number_at t s.pi1 c1 n, update_port_connection_map1 s n c1)
  ]
  number_pair t s c1 c2 none none = number_both t s c1 c2

  unfoldable pub number_connection_pair :
      Numbers → State → Connection → Connection → NumberingResult
  unfolding number_pair port_number_at
  number_connection_pair t s c1 c2 =
      number_pair t s c1 c2 (port_number_at t s.pi1 c1) (port_number_at t s.pi2 c2)
