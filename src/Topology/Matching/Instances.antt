-- ===== src/Topology/Matching/Instances.antt =====
-- fpp_analysis/src/semantics/resolve_topology/matched_port_numbering.rs: one matching of two ports, from
-- the maps of its connections to their numbers. The connections at the two ports are arguments; the
-- order of connections, whether one is unmatched, and the component instance at its other end are
-- parameters.
pub mod Missing
pub mod Maps
pub mod Sorted
pub mod Numbered
pub mod Handled
use fpp_tools.Prelude.{
  ℕ, Bool, true, false, List, [], ◌∷◌, ◌++◌, Option, none, some, ℤ, if◌then◌else◌, Result, ok, err,
  and_then, find_map, length, leb, map, try_for_each, map_err,
}
use fpp_tools.Topology.PortNumbers.{initial}
use fpp_tools.Topology.Matching.{
  PortInstance, is_input, NumberingError, missing_connection, no_matching_instance, Numbers,
  port_number_at, PortConnectionMap, connection_at, State, number_connection_pair,
}

-- What the numbering reads of a connection.
pub record Connections {ℓ κ} (Connection : Type ℓ) (Instance : Type κ) : Type (ℓ ⊔ κ) where
  pub same : Connection → Connection → Bool
  -- `x.1.cmp(&y.1)`, as "not greater".
  pub not_after : Connection → Connection → Bool
  pub is_unmatched : Connection → Bool
  pub same_instance : Instance → Instance → Bool
  -- The instance at the end that is not at the port.
  pub other_instance : PortInstance → Connection → Option Instance

pub data MatchingError {ℓ} (Connection : Type ℓ) : Type ℓ where
  duplicate_matched_connection : Connection → Connection → MatchingError Connection
  duplicate_connection_at_matched_port : Connection → ℤ → Connection → MatchingError Connection
  numbering : NumberingError Connection → MatchingError Connection

module _ {ℓ κ} {Connection : Type ℓ} {Instance : Type κ}
    (cs : Connections Connection Instance) where
  abbrev pub InstanceConnectionMap : Type (ℓ ⊔ κ)
  InstanceConnectionMap = List (Instance × Connection)

  unfoldable pub connection_to : InstanceConnectionMap → Instance → Option Connection
  connection_to m i = find_map (λ (j, c). if cs.same_instance j i then some c else none) m

  -- The check of `helper`, for one entry of its first map.
  abbrev pub contains_key :
      InstanceConnectionMap → Instance × Connection → Result (Unit {0}) (NumberingError Connection)
  contains_key icm2 (i, c) = elim (connection_to icm2 i) [
    | some d ↦ ok tt
    | none ↦ err (missing_connection c)
  ]

  unfoldable pub check_for_missing_connections :
      InstanceConnectionMap → InstanceConnectionMap → Result (Unit {0}) (NumberingError Connection)
  unfolding connection_to
  check_for_missing_connections icm1 icm2 =
      if leb (length icm2) (length icm1)
      then try_for_each (contains_key icm2) icm1
      else try_for_each (contains_key icm1) icm2

  -- `sort_by`, which is stable.
  abbrev pub insert_sorted : Instance × Connection → InstanceConnectionMap → InstanceConnectionMap
  insert_sorted x [] = x ∷ []
  insert_sorted x (y ∷ ys) =
      let rest = insert_sorted x ys in if cs.not_after x.1 y.1 then x ∷ y ∷ ys else y ∷ rest

  abbrev pub sort_by_connection : InstanceConnectionMap → InstanceConnectionMap
  sort_by_connection [] = []
  sort_by_connection (x ∷ xs) = insert_sorted x (sort_by_connection xs)

  -- The loop of `assign_numbers`, over the sorted list.
  unfoldable pub number_pairs :
      Numbers cs.same
      → State cs.same
      → InstanceConnectionMap
      → InstanceConnectionMap
      → Result (Numbers cs.same) (NumberingError Connection)
  unfolding number_connection_pair connection_to
  number_pairs t s icm2 [] = ok t
  number_pairs t s icm2 ((i, c1) ∷ list1) = elim (connection_to icm2 i) [
    | none ↦ err no_matching_instance
    | some c2 ↦
        and_then (number_connection_pair cs.same t s c1 c2)
          λ (t', s'). number_pairs t' s' icm2 list1
  ]

  unfoldable pub assign_numbers :
      Numbers cs.same
      → State cs.same
      → InstanceConnectionMap
      → InstanceConnectionMap
      → Result (Numbers cs.same) (NumberingError Connection)
  unfolding number_pairs
  assign_numbers t s icm1 icm2 = number_pairs t s icm2 (sort_by_connection icm1)

  -- `State::initial`.
  unfoldable pub initial_state :
      PortInstance
      → PortConnectionMap cs.same
      → PortInstance
      → PortConnectionMap cs.same
      → State cs.same
  unfolding initial
  initial_state pi1 pcm1 pi2 pcm2 = record {
    pi1 = pi1;
    pcm1 = pcm1;
    pi2 = pi2;
    pcm2 = pcm2;
    numbering = initial (map (λ (n, c). n) pcm1 ++ map (λ (n, c). n) pcm2);
  }

  -- The loop of `compute_instance_connection_map`, on the map so far.
  unfoldable pub add_instances :
      PortInstance
      → InstanceConnectionMap
      → List Connection
      → Result InstanceConnectionMap (MatchingError Connection)
  unfolding connection_to
  add_instances pi m [] = ok m
  add_instances pi m (c ∷ rest) =
      let skip = add_instances pi m rest in
      if cs.is_unmatched c then skip else (elim (cs.other_instance pi c) [
        | none ↦ skip
        | some i ↦ (elim (connection_to m i) [
          | some prev ↦ err (duplicate_matched_connection c prev)
          | none ↦ add_instances pi (m ++ ((i, c) ∷ [])) rest
        ])
      ])

  unfoldable pub compute_instance_connection_map :
      PortInstance → List Connection → Result InstanceConnectionMap (MatchingError Connection)
  unfolding add_instances
  compute_instance_connection_map pi at = add_instances pi [] at

  -- The loop of `compute_port_connection_map`, on the map so far.
  unfoldable pub add_ports :
      Numbers cs.same
      → PortInstance
      → PortConnectionMap cs.same
      → List Connection
      → Result (PortConnectionMap cs.same) (MatchingError Connection)
  unfolding port_number_at connection_at
  add_ports t pi m [] = ok m
  add_ports t pi m (c ∷ rest) = elim (port_number_at cs.same t pi c) [
    | none ↦ add_ports t pi m rest
    | some n ↦ (elim (connection_at cs.same m n) [
      | some prev ↦ err (duplicate_connection_at_matched_port c n prev)
      | none ↦ add_ports t pi ((n, c) ∷ m) rest
    ])
  ]

  unfoldable pub compute_port_connection_map :
      Numbers cs.same
      → PortInstance
      → List Connection
      → Result (PortConnectionMap cs.same) (MatchingError Connection)
  unfolding add_ports
  compute_port_connection_map t pi at = add_ports t pi [] at

  -- `handle_port_matching`, of the connections `at1` and `at2` at the two ports.
  unfoldable pub handle_port_matching :
      Numbers cs.same
      → PortInstance
      → List Connection
      → PortInstance
      → List Connection
      → Result (Numbers cs.same) (MatchingError Connection)
  unfolding compute_port_connection_map compute_instance_connection_map initial_state
      check_for_missing_connections assign_numbers
  handle_port_matching t pi1 at1 pi2 at2 = and_then (compute_port_connection_map t pi1 at1) λ pcm1.
      and_then (compute_port_connection_map t pi2 at2) λ pcm2.
        and_then (compute_instance_connection_map pi1 at1) λ icm1.
          and_then (compute_instance_connection_map pi2 at2) λ icm2. map_err numbering (
            and_then (check_for_missing_connections icm1 icm2)
              λ checked. assign_numbers t (initial_state pi1 pcm1 pi2 pcm2) icm1 icm2)
