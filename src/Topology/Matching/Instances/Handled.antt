-- ===== src/Topology/Matching/Instances/Handled.antt =====
-- fpp_analysis/src/semantics/resolve_topology/matched_port_numbering.rs: what `handle_port_matching` does for
-- one matching.
use fpp_tools.Prelude.{
  ◌≡◌, ◌≢◌, ◌↔◌, refl, ap, true, List, [], ◌∷◌, ◌++◌, some, inl, inr, Result, ok, err, map_err,
  and_then, and_then-ok, try_for_each, leb, length, arith, Bool-cases, Option-cases,
}
use fpp_tools.Topology.Matching.{
  PortInstance, NumberingError, no_matching_instance, Numbers, State, PortConnectionMap,
  port_number_at, connection_at,
}
use fpp_tools.Topology.Matching.Instances.{
  Connections, numbering, InstanceConnectionMap, connection_to, sort_by_connection, assign_numbers,
  initial_state, add_instances, add_ports, compute_instance_connection_map,
  compute_port_connection_map, check_for_missing_connections, handle_port_matching, contains_key,
}
use fpp_tools.Topology.Matching.Instances.Missing.{
  Has, DistinctKeys, check_for_missing_connections-Has,
}
use fpp_tools.Topology.Matching.Instances.Maps.{Matches, compute_instance_connection_map_lem}
use fpp_tools.Topology.Matching.Instances.Sorted.{
  sort_by_connection-All, All-sort_by_connection, All-connection_to,
}
use fpp_tools.Topology.Matching.Instances.Numbered.{
  OneNumber, Keeps, Numbered, number_pairs-Numbered, number_pairs-finds,
}

module _ {ℓ κ μ} {A : Type ℓ} {E : Type κ} {F : Type μ} where
  map_err-ok : (f : E → F) (r : Result A E) {a : A} → map_err f r ≡ ok a → r ≡ ok a
  map_err-ok f (ok b) {a} h = let same : b ≡ a = cc in ap ok same
  map_err-ok f (err e) h = cc

-- A sequence of steps none of which gives the error.
and_then-never {ℓ κ μ} :
    {A : Type ℓ} {B : Type κ} {E : Type μ} (e : E) (r : Result A E) (g : A → Result B E)
    → r ≢ err e
    → ((a : A) → r ≡ ok a → g a ≢ err e)
    → and_then r g ≢ err e
and_then-never e (ok a) g hr hg h = hg a refl h
and_then-never e (err e') g hr hg h = let same : e' ≡ e = cc in hr (ap err same)

map_err-never {ℓ κ} :
    {A : Type ℓ} {Connection : Type κ} (r : Result A (NumberingError Connection))
    → r ≢ err no_matching_instance
    → map_err numbering r ≢ err (numbering no_matching_instance)
map_err-never (ok a) hr h = cc
map_err-never (err e) hr h = let same : e ≡ no_matching_instance = cc in hr (ap err same)

module _ {ℓ κ} {Connection : Type ℓ} {Instance : Type κ} (cs : Connections Connection Instance)
    (lawful : (c d : Connection) → (cs.same c d ≡ true) ↔ (c ≡ d))
    (lawful_instance : (i j : Instance) → (cs.same_instance i j ≡ true) ↔ (i ≡ j)) where
  assign_numbers-OneNumber :
      (t : Numbers cs.same) (pi1 pi2 : PortInstance) (pcm1 pcm2 : PortConnectionMap cs.same)
      (icm1 icm2 : InstanceConnectionMap cs) {t' : Numbers cs.same}
      → assign_numbers cs t (initial_state cs pi1 pcm1 pi2 pcm2) icm1 icm2 ≡ ok t'
      → ((i : Instance) (c1 c2 : Connection)
          → connection_to cs icm1 i ≡ some c1
          → connection_to cs icm2 i ≡ some c2
          → OneNumber cs lawful lawful_instance pi1 pi2 t' c1 c2)
        × Keeps cs lawful lawful_instance t t'
  unfolding assign_numbers initial_state
  assign_numbers-OneNumber t pi1 pi2 pcm1 pcm2 icm1 icm2 {t'} h =
      let (all, keeps) =
        number_pairs-Numbered cs lawful lawful_instance icm2 pi1 pi2 t
          (initial_state cs pi1 pcm1 pi2 pcm2) (sort_by_connection cs icm1) refl refl h in
      let entry = Numbered cs lawful lawful_instance icm2 pi1 pi2 t' in
      (
        λ i c1 c2 e1 e2.
            All-connection_to cs entry lawful_instance icm1 i c1
              (All-sort_by_connection cs entry icm1 all) e1 c2 e2,
        keeps,
      )

  -- A matching that is numbered: two connections at the two ports that are to be matched, since they
  -- lead to one instance and are not marked as unmatched, have one number at their ports in the end;
  -- and every number that was there stays.
  pub handle_port_matching-OneNumber :
      (t : Numbers cs.same) (pi1 pi2 : PortInstance) (at1 at2 : List Connection)
      {t' : Numbers cs.same}
      → handle_port_matching cs t pi1 at1 pi2 at2 ≡ ok t'
      → ((i : Instance) (c1 c2 : Connection)
          → Matches cs lawful_instance pi1 at1 i c1
          → Matches cs lawful_instance pi2 at2 i c2
          → OneNumber cs lawful lawful_instance pi1 pi2 t' c1 c2)
        × Keeps cs lawful lawful_instance t t'
  unfolding handle_port_matching
  handle_port_matching-OneNumber t pi1 pi2 at1 at2 {t'} h =
      let (pcm1, p1, h1) = and_then-ok (compute_port_connection_map cs t pi1 at1) _ h in
      let (pcm2, p2, h2) = and_then-ok (compute_port_connection_map cs t pi2 at2) _ h1 in
      let (icm1, i1, h3) = and_then-ok (compute_instance_connection_map cs pi1 at1) _ h2 in
      let (icm2, i2, h4) = and_then-ok (compute_instance_connection_map cs pi2 at2) _ h3 in
      let (u, missing, h5) =
        and_then-ok (check_for_missing_connections cs icm1 icm2) _ (map_err-ok numbering _ h4) in
      let (d1, found1) = compute_instance_connection_map_lem cs lawful_instance pi1 at1 lawful i1 in
      let (d2, found2) = compute_instance_connection_map_lem cs lawful_instance pi2 at2 lawful i2 in
      let (one, keeps) = assign_numbers-OneNumber t pi1 pi2 pcm1 pcm2 icm1 icm2 h5 in
      (λ i c1 c2 m1 m2. one i c1 c2 (found1 i c1 m1) (found2 i c2 m2), keeps)

  add_ports-never :
      (t : Numbers cs.same) (pi : PortInstance) (m : PortConnectionMap cs.same)
      (at : List Connection) (e : NumberingError Connection)
      → add_ports cs t pi m at ≢ err (numbering e)
  unfolding add_ports
  add_ports-never t pi m [] e h = cc
  add_ports-never t pi m (c ∷ rest) e h = elim (Option-cases (port_number_at cs.same t pi c)) [
    | inl o ↦ add_ports-never t pi m rest e (rw (add_ports, o) at h)
    | inr (n, o) ↦ (elim (Option-cases (connection_at cs.same m n)) [
      | inl f ↦ add_ports-never t pi ((n, c) ∷ m) rest e (rw (add_ports, o, f) at h)
      | inr (prev, f) ↦ let h' = rw (add_ports, o, f) at h in cc
    ])
  ]

  add_instances-never :
      (pi : PortInstance) (m : InstanceConnectionMap cs) (at : List Connection)
      (e : NumberingError Connection)
      → add_instances cs pi m at ≢ err (numbering e)
  unfolding add_instances
  add_instances-never pi m [] e h = cc
  add_instances-never pi m (c ∷ rest) e h = elim (Bool-cases (cs.is_unmatched c)) [
    | inl u ↦ add_instances-never pi m rest e (rw (add_instances, u) at h)
    | inr u ↦ (elim (Option-cases (cs.other_instance pi c)) [
      | inl o ↦ add_instances-never pi m rest e (rw (add_instances, u, o) at h)
      | inr (i, o) ↦ (elim (Option-cases (connection_to cs m i)) [
        | inl f ↦
            add_instances-never pi (m ++ ((i, c) ∷ [])) rest e (rw (add_instances, u, o, f) at h)
        | inr (prev, f) ↦ let h' = rw (add_instances, u, o, f) at h in cc
      ])
    ])
  ]

  contains_key-finds :
      (m : InstanceConnectionMap cs) (keys : InstanceConnectionMap cs)
      → try_for_each (contains_key cs m) keys ≢ err no_matching_instance
  contains_key-finds m [] h = cc
  contains_key-finds m ((i, c) ∷ keys) h = elim (Option-cases (connection_to cs m i)) [
    | inl e ↦ ground arith
    | inr (d, e) ↦ contains_key-finds m keys (ground arith)
  ]

  check_for_missing_connections-finds :
      (icm1 icm2 : InstanceConnectionMap cs)
      → check_for_missing_connections cs icm1 icm2 ≢ err no_matching_instance
  unfolding check_for_missing_connections
  check_for_missing_connections-finds icm1 icm2 h =
      elim (Bool-cases (leb (length icm2) (length icm1))) [
        | inl e ↦ contains_key-finds icm2 icm1 (rw (check_for_missing_connections, e) at h)
        | inr e ↦ contains_key-finds icm1 icm2 (rw (check_for_missing_connections, e) at h)
      ]

  checked-finds :
      (t : Numbers cs.same) (s : State cs.same) (icm1 icm2 : InstanceConnectionMap cs)
      → DistinctKeys cs lawful_instance icm1
      → DistinctKeys cs lawful_instance icm2
      → and_then (check_for_missing_connections cs icm1 icm2) (λ u. assign_numbers cs t s icm1 icm2)
        ≢ err no_matching_instance
  unfolding assign_numbers
  checked-finds t s icm1 icm2 d1 d2 =
      and_then-never no_matching_instance (check_for_missing_connections cs icm1 icm2) _
        (check_for_missing_connections-finds icm1 icm2)
        λ u e. number_pairs-finds cs lawful lawful_instance t s icm2 (sort_by_connection cs icm1) (
          sort_by_connection-All cs (λ (i, c). Has cs lawful_instance icm2 i) icm1
            (check_for_missing_connections-Has cs lawful_instance icm1 icm2 d1 d2 e))

  -- The lookup in `assign_numbers` that the source expects to succeed never fails: the maps that are
  -- built have one entry for each instance, and the check for missing connections comes first.
  pub handle_port_matching-finds :
      (t : Numbers cs.same) (pi1 pi2 : PortInstance) (at1 at2 : List Connection)
      → handle_port_matching cs t pi1 at1 pi2 at2 ≢ err (numbering no_matching_instance)
  unfolding handle_port_matching compute_port_connection_map compute_instance_connection_map
  handle_port_matching-finds t pi1 pi2 at1 at2 =
      let never = numbering no_matching_instance in
      and_then-never never (compute_port_connection_map cs t pi1 at1) _
        (add_ports-never t pi1 [] at1 no_matching_instance)
        λ pcm1 p1.
          and_then-never never (compute_port_connection_map cs t pi2 at2) _
            (add_ports-never t pi2 [] at2 no_matching_instance)
            λ pcm2 p2.
              and_then-never never (compute_instance_connection_map cs pi1 at1) _
                (add_instances-never pi1 [] at1 no_matching_instance)
                λ icm1 i1.
                  and_then-never never (compute_instance_connection_map cs pi2 at2) _
                    (add_instances-never pi2 [] at2 no_matching_instance)
                    λ icm2 i2. map_err-never _ (
                      checked-finds t (initial_state cs pi1 pcm1 pi2 pcm2) icm1 icm2
                        (compute_instance_connection_map_lem cs lawful_instance pi1 at1 lawful i1).0
                        (compute_instance_connection_map_lem cs lawful_instance pi2 at2 lawful
                          i2).0)
