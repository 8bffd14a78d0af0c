-- ===== src/Topology/Matching/Instances/Sorted.antt =====
-- fpp_analysis/src/semantics/resolve_topology/matched_port_numbering.rs: sorting a map's entries neither
-- loses nor adds one.
use fpp_tools.Prelude.{
  ◌≡◌, ◌↔◌, sym, ◌∙◌, true, [], ◌∷◌, some, Option, inl, inr, All, Bool-cases, subst,
}
use fpp_tools.Topology.Matching.Instances.{
  Connections, InstanceConnectionMap, connection_to, insert_sorted, sort_by_connection,
}
use fpp_tools.Topology.Matching.Instances.Missing.{connection_to-other}
use fpp_tools.Topology.Matching.Instances.Maps.{connection_to-hit, connection_to-nil}

module _ {ℓ κ μ} {Connection : Type ℓ} {Instance : Type κ} (cs : Connections Connection Instance)
    (P : Instance × Connection → Type μ) where
  insert_sorted-All :
      (x : Instance × Connection) (xs : InstanceConnectionMap cs)
      → P x
      → All P xs
      → All P (insert_sorted cs x xs)
  insert_sorted-All x [] p all = (p, tt)
  insert_sorted-All x (y ∷ ys) p all = elim (Bool-cases (cs.not_after x.1 y.1)) [
    | inl e ↦ rw (insert_sorted, e) (p, all)
    | inr e ↦ rw (insert_sorted, e) (all.0, insert_sorted-All x ys p all.1)
  ]

  pub sort_by_connection-All :
      (xs : InstanceConnectionMap cs) → All P xs → All P (sort_by_connection cs xs)
  sort_by_connection-All [] all = tt
  sort_by_connection-All (x ∷ xs) all =
      insert_sorted-All x (sort_by_connection cs xs) all.0 (sort_by_connection-All xs all.1)

  All-insert_sorted :
      (x : Instance × Connection) (xs : InstanceConnectionMap cs)
      → All P (insert_sorted cs x xs)
      → P x × All P xs
  All-insert_sorted x [] all = (all.0, tt)
  All-insert_sorted x (y ∷ ys) all = elim (Bool-cases (cs.not_after x.1 y.1)) [
    | inl e ↦ (rw (insert_sorted, e) at all)
    | inr e ↦
        let all' : P y × All P (insert_sorted cs x ys) = rw (insert_sorted, e) at all in
        let (p, rest) = All-insert_sorted x ys all'.1 in (p, (all'.0, rest))
  ]

  pub All-sort_by_connection :
      (xs : InstanceConnectionMap cs) → All P (sort_by_connection cs xs) → All P xs
  All-sort_by_connection [] all = tt
  All-sort_by_connection (x ∷ xs) all =
      let (p, rest) = All-insert_sorted x (sort_by_connection cs xs) all in
      (p, All-sort_by_connection xs rest)

  module _ (lawful : (i j : Instance) → (cs.same_instance i j ≡ true) ↔ (i ≡ j)) where
    -- What holds of every entry holds of the one that a lookup gives.
    pub All-connection_to :
        (xs : InstanceConnectionMap cs) (i : Instance) (c : Connection)
        → All P xs
        → connection_to cs xs i ≡ some c
        → P (i, c)
    All-connection_to [] i c all h =
        absurd (let clash = sym (connection_to-nil cs lawful i) ∙ h in cc)
    All-connection_to ((j, d) ∷ xs) i c all h = elim (Bool-cases (cs.same_instance j i)) [
      | inl e ↦
          let found : Path (Option Connection) (some d) (some c) =
            sym (connection_to-hit cs lawful xs j i d e) ∙ h in
          let same : d ≡ c = cc in
          subst (λ x. P (i, x)) same (subst (λ x. P (x, d)) ((lawful j i).0 e) all.0)
      | inr e ↦ All-connection_to xs i c all.1 (sym (connection_to-other cs lawful xs j i d e) ∙ h)
    ]
