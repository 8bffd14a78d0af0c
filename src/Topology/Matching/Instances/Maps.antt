-- ===== src/Topology/Matching/Instances/Maps.antt =====
-- fpp_analysis/src/semantics/resolve_topology/matched_port_numbering.rs: the map from component instances
-- to connections holds each connection under its instance.
use fpp_tools.Prelude.{
  ◌≡◌, ◌↔◌, ◌⊎◌, refl, sym, ◌∙◌, true, false, List, [], ◌∷◌, ◌++◌, Option, none, some, inl, inr, ok,
  arith, Bool-cases, Option-cases, subst,
}
use fpp_tools.Topology.PortNumbers.Output.{among}
use fpp_tools.Topology.Matching.{PortInstance}
use fpp_tools.Topology.Matching.Instances.{
  Connections, InstanceConnectionMap, connection_to, add_instances, compute_instance_connection_map,
}
use fpp_tools.Topology.Matching.Instances.Missing.{
  DistinctKeys, different_sym, connection_to-same, connection_to-other,
}

module _ {ℓ κ} {Connection : Type ℓ} {Instance : Type κ} (cs : Connections Connection Instance)
    (lawful : (i j : Instance) → (cs.same_instance i j ≡ true) ↔ (i ≡ j)) where
  pub connection_to-hit :
      (m : InstanceConnectionMap cs) (j i : Instance) (d : Connection)
      → cs.same_instance j i ≡ true
      → connection_to cs ((j, d) ∷ m) i ≡ some d
  unfolding connection_to
  connection_to-hit m j i d h = ground arith

  pub connection_to-nil : (i : Instance) → connection_to cs [] i ≡ none
  unfolding connection_to
  connection_to-nil i = refl

  -- An instance that the map has not is not that of its first entry.
  absent-head :
      (m : InstanceConnectionMap cs) (j i : Instance) (d : Connection)
      → connection_to cs ((j, d) ∷ m) i ≡ none
      → cs.same_instance j i ≡ false
  absent-head m j i d h = elim (Bool-cases (cs.same_instance j i)) [
    | inl e ↦ absurd (let clash = sym (connection_to-hit m j i d e) ∙ h in cc)
    | inr e ↦ e
  ]

  connection_to-append_some :
      (m m' : InstanceConnectionMap cs) (i : Instance) {c : Connection}
      → connection_to cs m i ≡ some c
      → connection_to cs (m ++ m') i ≡ some c
  connection_to-append_some [] m' i h = absurd (let clash = sym (connection_to-nil i) ∙ h in cc)
  connection_to-append_some ((j, d) ∷ m) m' i h = elim (Bool-cases (cs.same_instance j i)) [
    | inl e ↦ connection_to-hit (m ++ m') j i d e ∙ (sym (connection_to-hit m j i d e) ∙ h)
    | inr e ↦
        connection_to-other cs lawful (m ++ m') j i d e
        ∙ connection_to-append_some m m' i (sym (connection_to-other cs lawful m j i d e) ∙ h)
  ]

  connection_to-append_none :
      (m m' : InstanceConnectionMap cs) (i : Instance)
      → connection_to cs m i ≡ none
      → connection_to cs (m ++ m') i ≡ connection_to cs m' i
  connection_to-append_none [] m' i h = refl
  connection_to-append_none ((j, d) ∷ m) m' i h =
      let e = absent-head m j i d h in
      connection_to-other cs lawful (m ++ m') j i d e
      ∙ connection_to-append_none m m' i (sym (connection_to-other cs lawful m j i d e) ∙ h)

  append-DistinctKeys :
      (m : InstanceConnectionMap cs) (i : Instance) (c : Connection)
      → connection_to cs m i ≡ none
      → DistinctKeys cs lawful m
      → DistinctKeys cs lawful (m ++ ((i, c) ∷ []))
  append-DistinctKeys [] i c h d = (h, tt)
  append-DistinctKeys ((j, e) ∷ m) i c h d =
      let e' = absent-head m j i e h in
      let here =
        connection_to-append_none m ((i, c) ∷ []) j d.0
        ∙ (connection_to-other cs lawful [] i j c (different_sym cs lawful j i e')
            ∙ connection_to-nil j) in
      (here, append-DistinctKeys m i c (sym (connection_to-other cs lawful m j i e e') ∙ h) d.1)

  module _ (pi : PortInstance) where
    -- One step of `add_instances`: the connection is passed over, or it is added under an instance that
    -- the map has not.
    add_instances-step :
        (m : InstanceConnectionMap cs) (c : Connection) (rest : List Connection)
        {m' : InstanceConnectionMap cs}
        → add_instances cs pi m (c ∷ rest) ≡ ok m'
        → ((i : Instance) × (cs.other_instance pi c ≡ some i)
            × (connection_to cs m i ≡ none)
            × (add_instances cs pi (m ++ ((i, c) ∷ [])) rest ≡ ok m'))
          ⊎ (((cs.is_unmatched c ≡ true) ⊎ (cs.other_instance pi c ≡ none))
              × (add_instances cs pi m rest ≡ ok m'))
    unfolding add_instances
    add_instances-step m c rest h = elim (Bool-cases (cs.is_unmatched c)) [
      | inl e ↦ inr (inl e, rw (add_instances, e) at h)
      | inr e ↦ (elim (Option-cases (cs.other_instance pi c)) [
        | inl f ↦ inr (inr f, rw (add_instances, e, f) at h)
        | inr (i, f) ↦ (elim (Option-cases (connection_to cs m i)) [
          | inl g ↦ inl (i, f, g, rw (add_instances, e, f, g) at h)
          | inr (prev, g) ↦ absurd (let h' = rw (add_instances, e, f, g) at h in cc)
        ])
      ])
    ]

    add_instances-DistinctKeys :
        (m : InstanceConnectionMap cs) (at : List Connection) {m' : InstanceConnectionMap cs}
        → DistinctKeys cs lawful m
        → add_instances cs pi m at ≡ ok m'
        → DistinctKeys cs lawful m'
    unfolding add_instances
    add_instances-DistinctKeys m [] {m'} d h =
        let same : m ≡ m' = cc in subst (DistinctKeys cs lawful) same d
    add_instances-DistinctKeys m (c ∷ rest) d h = elim (add_instances-step m c rest h) [
      | inl (i, f, g, next) ↦
          add_instances-DistinctKeys (m ++ ((i, c) ∷ [])) rest (append-DistinctKeys m i c g d) next
      | inr (skipped, next) ↦ add_instances-DistinctKeys m rest d next
    ]

    add_instances-keeps :
        (m : InstanceConnectionMap cs) (at : List Connection) (i : Instance) {c : Connection}
        {m' : InstanceConnectionMap cs}
        → connection_to cs m i ≡ some c
        → add_instances cs pi m at ≡ ok m'
        → connection_to cs m' i ≡ some c
    unfolding add_instances
    add_instances-keeps m [] i {c} {m'} k h =
        let same : m ≡ m' = cc in subst (λ x. connection_to cs x i ≡ some c) same k
    add_instances-keeps m (d ∷ rest) i k h = elim (add_instances-step m d rest h) [
      | inl (j, f, g, next) ↦
          add_instances-keeps (m ++ ((j, d) ∷ [])) rest i
            (connection_to-append_some m ((j, d) ∷ []) i k) next
      | inr (skipped, next) ↦ add_instances-keeps m rest i k next
    ]

    -- The connections of one port that are numbered with those of the other, each with the instance at
    -- its other end.
    abbrev pub Matches : List Connection → Instance → Connection → Type κ
    Matches at i c =
        (among cs.same at c ≡ true)
        × (cs.is_unmatched c ≡ false)
        × (cs.other_instance pi c ≡ some i)

    added-Matches :
        (m : InstanceConnectionMap cs) (rest : List Connection) (i j : Instance) (c d : Connection)
        {m' : InstanceConnectionMap cs}
        → Path (Option Instance) (some j) (some i)
        → d ≡ c
        → connection_to cs (m ++ ((j, d) ∷ [])) j ≡ some d
        → add_instances cs pi (m ++ ((j, d) ∷ [])) rest ≡ ok m'
        → connection_to cs m' i ≡ some c
    added-Matches m rest i j c d o here added next =
        let same : j ≡ i = cc in
        let m1 = m ++ ((j, d) ∷ []) in
        let at_i = subst (λ x. connection_to cs m1 x ≡ some d) same added in
        add_instances-keeps m1 rest i (subst (λ x. connection_to cs m1 i ≡ some x) here at_i) next

    add_instances-Matches :
        (m : InstanceConnectionMap cs) (at : List Connection) (i : Instance) (c : Connection)
        {m' : InstanceConnectionMap cs}
        → ((c d : Connection) → (cs.same c d ≡ true) ↔ (c ≡ d))
        → Matches at i c
        → add_instances cs pi m at ≡ ok m'
        → connection_to cs m' i ≡ some c
    add_instances-Matches m [] i c l (a, u, o) h = absurd cc
    add_instances-Matches m (d ∷ rest) i c l (a, u, o) h = elim (Bool-cases (cs.same d c)) [
      | inl e ↦
          let here : d ≡ c = (l d c).0 e in
          (elim (add_instances-step m d rest h) [
            | inl (j, f, g, next) ↦
                let other = subst (λ x. cs.other_instance pi x ≡ some i) (sym here) o in
                let added =
                  connection_to-append_none m ((j, d) ∷ []) j g
                  ∙ connection_to-same cs lawful [] j d in
                added-Matches m rest i j c d (sym f ∙ other) here added next
            | inr (inl skipped, next) ↦
                let matched = subst (λ x. cs.is_unmatched x ≡ false) (sym here) u in
                absurd (let clash = sym skipped ∙ matched in cc)
            | inr (inr skipped, next) ↦
                let other = subst (λ x. cs.other_instance pi x ≡ some i) (sym here) o in
                absurd (let clash = sym skipped ∙ other in cc)
          ])
      | inr e ↦
          let a' : among cs.same rest c ≡ true = ground arith in
          (elim (add_instances-step m d rest h) [
            | inl (j, f, g, next) ↦
                add_instances-Matches (m ++ ((j, d) ∷ [])) rest i c l (a', u, o) next
            | inr (skipped, next) ↦ add_instances-Matches m rest i c l (a', u, o) next
          ])
    ]

    -- The map of the connections at a port: no instance has two, and every connection that matches is
    -- the one of its instance.
    pub compute_instance_connection_map_lem :
        (at : List Connection) {m : InstanceConnectionMap cs}
        → ((c d : Connection) → (cs.same c d ≡ true) ↔ (c ≡ d))
        → compute_instance_connection_map cs pi at ≡ ok m
        → DistinctKeys cs lawful m
          × ((i : Instance) (c : Connection) → Matches at i c → connection_to cs m i ≡ some c)
    unfolding compute_instance_connection_map
    compute_instance_connection_map_lem at l h = (
      add_instances-DistinctKeys [] at tt h,
      λ i c matches. add_instances-Matches [] at i c l matches h,
    )
