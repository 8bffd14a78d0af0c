-- ===== src/Topology/Matching/Instances/Missing.antt =====
-- fpp_analysis/src/semantics/resolve_topology/matched_port_numbering.rs: where no connection is missing,
-- each instance of the first map has a connection in the second.
use fpp_tools.Prelude.{
  ◌≤◌, ◌<◌, ◌≡◌, ◌↔◌, refl, sym, ◌∙◌, true, false, [], ◌∷◌, none, some, inl, inr, ok, length, leb,
  All, try_for_each, arith, Bool-cases, Option-cases, subst,
}
use fpp_tools.Topology.Matching.Instances.{
  Connections, InstanceConnectionMap, connection_to, contains_key, check_for_missing_connections,
}

module _ {ℓ κ} {Connection : Type ℓ} {Instance : Type κ} (cs : Connections Connection Instance)
    (lawful : (i j : Instance) → (cs.same_instance i j ≡ true) ↔ (i ≡ j)) where
  -- The instance has a connection in the map.
  abbrev pub Has : InstanceConnectionMap cs → Instance → Type ℓ
  Has m i = (c : Connection) × (connection_to cs m i ≡ some c)

  -- No instance has two entries.
  abbrev pub DistinctKeys : InstanceConnectionMap cs → Type ℓ
  DistinctKeys [] = Unit
  DistinctKeys ((i, c) ∷ m) = (connection_to cs m i ≡ none) × DistinctKeys m

  pub connection_to-same :
      (m : InstanceConnectionMap cs) (i : Instance) (c : Connection)
      → connection_to cs ((i, c) ∷ m) i ≡ some c
  unfolding connection_to
  connection_to-same m i c = ground (arith, (lawful i i).1 refl)

  pub connection_to-other :
      (m : InstanceConnectionMap cs) (i j : Instance) (c : Connection)
      → cs.same_instance i j ≡ false
      → connection_to cs ((i, c) ∷ m) j ≡ connection_to cs m j
  unfolding connection_to
  connection_to-other m i j c h = ground arith

  -- The map without the entries of an instance.
  abbrev without : Instance → InstanceConnectionMap cs → InstanceConnectionMap cs
  without i [] = []
  without i ((j, c) ∷ m) =
      let rest = without i m in elim (cs.same_instance i j) [ true ↦ rest | false ↦ (j, c) ∷ rest ]

  length-without_le :
      (i : Instance) (m : InstanceConnectionMap cs) → length (without i m) ≤ length m
  length-without_le i [] = omega arith
  length-without_le i ((j, c) ∷ m) = ground (arith, length-without_le i m)

  pub different_sym : (i j : Instance) → cs.same_instance i j ≡ false → cs.same_instance j i ≡ false
  different_sym i j h = elim (Bool-cases (cs.same_instance j i)) [
    | inl e ↦ let equal = (lawful i j).1 (sym ((lawful j i).0 e)) in absurd cc
    | inr e ↦ e
  ]

  Has-nil : (i : Instance) → Has [] i → ⊥
  unfolding connection_to
  Has-nil i (c, e) = cc

  Has-tail :
      (m : InstanceConnectionMap cs) (i j : Instance) (c : Connection)
      → cs.same_instance j i ≡ false
      → Has ((j, c) ∷ m) i
      → Has m i
  Has-tail m i j c e (d, h) = (d, sym (connection_to-other m j i c e) ∙ h)

  length-without_lt :
      (i : Instance) (m : InstanceConnectionMap cs) → Has m i → length (without i m) < length m
  length-without_lt i [] h = absurd (Has-nil i h)
  length-without_lt i ((j, c) ∷ m) h = elim (Bool-cases (cs.same_instance i j)) [
    | inl e ↦ ground (arith, length-without_le i m)
    | inr e ↦ ground (arith, length-without_lt i m (Has-tail m i j c (different_sym i j e) h))
  ]

  Has-without :
      (i j : Instance) (m : InstanceConnectionMap cs)
      → cs.same_instance i j ≡ false
      → Has m j
      → Has (without i m) j
  Has-without i j [] h k = k
  Has-without i j ((l, c) ∷ m) h k = elim (Bool-cases (cs.same_instance l j)) [
    | inl e ↦
        let here = (lawful l j).0 e in
        let kept : cs.same_instance i l ≡ false =
          subst (λ x. cs.same_instance i x ≡ false) (sym here) h in
        rw (without, kept)
          (
            c,
            subst (λ x. connection_to cs ((l, c) ∷ without i m) x ≡ some c) here
                (connection_to-same (without i m) l c),
          )
    | inr e ↦
        let (d, there) = Has-without i j m h (Has-tail m j l c e k) in
        elim (Bool-cases (cs.same_instance i l)) [
          | inl f ↦ rw (without, f) (d, there)
          | inr f ↦ rw (without, f) (d, connection_to-other (without i m) l j c e ∙ there)
        ]
  ]

  All-without :
      (i : Instance) (keys m : InstanceConnectionMap cs)
      → connection_to cs keys i ≡ none
      → All (λ (j, c). Has m j) keys
      → All (λ (j, c). Has (without i m) j) keys
  All-without i [] m h all = tt
  All-without i ((j, c) ∷ keys) m h all = elim (Bool-cases (cs.same_instance j i)) [
    | inl e ↦
        let found =
          subst (λ x. connection_to cs ((j, c) ∷ keys) x ≡ some c) ((lawful j i).0 e)
            (connection_to-same keys j c) in
        absurd (let clash = sym h ∙ found in cc)
    | inr e ↦ (
      Has-without i j m (different_sym j i e) all.0,
      All-without i keys m (sym (connection_to-other keys j i c e) ∙ h) all.1,
    )
  ]

  -- Distinct instances that all have a connection in `m` are at most as many as its entries.
  length-le :
      (keys m : InstanceConnectionMap cs)
      → DistinctKeys keys
      → All (λ (i, c). Has m i) keys
      → length keys ≤ length m
  length-le [] m d h = omega arith
  length-le ((i, c) ∷ keys) m d h = omega (
    arith,
    length-le keys (without i m) d.1 (All-without i keys m d.0 h.1),
    length-without_lt i m h.0,
  )

  try_for_each-contains_key :
      (keys m : InstanceConnectionMap cs)
      → try_for_each (contains_key cs m) keys ≡ ok tt
      → All (λ (i, c). Has m i) keys
  try_for_each-contains_key [] m h = tt
  try_for_each-contains_key ((i, c) ∷ keys) m h = elim (Option-cases (connection_to cs m i)) [
    | inl e ↦ absurd (ground arith)
    | inr (d, e) ↦ ((d, e), try_for_each-contains_key keys m (ground arith))
  ]

  -- Where the check finds no missing connection, every instance of the first map is in the second,
  -- although the check looks for those of the larger map in the smaller one only.
  pub check_for_missing_connections-Has :
      (icm1 icm2 : InstanceConnectionMap cs)
      → DistinctKeys icm1
      → DistinctKeys icm2
      → check_for_missing_connections cs icm1 icm2 ≡ ok tt
      → All (λ (i, c). Has icm2 i) icm1
  unfolding check_for_missing_connections
  check_for_missing_connections-Has icm1 icm2 d1 d2 h =
      elim (Bool-cases (leb (length icm2) (length icm1))) [
        | inl e ↦ try_for_each-contains_key icm1 icm2 (rw (check_for_missing_connections, e) at h)
        | inr e ↦
            let all =
              try_for_each-contains_key icm2 icm1 (rw (check_for_missing_connections, e) at h) in
            let fits = length-le icm2 icm1 d2 all in absurd (ground arith)
      ]
