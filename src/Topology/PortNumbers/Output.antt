-- ===== src/Topology/PortNumbers/Output.antt =====
-- fpp_analysis/src/semantics/resolve_topology/general_port_numbering.rs: the numbering of an output port
-- array numbers every connection, and changes no number that is there.
use fpp_tools.Prelude.{
  ◌≡◌, ◌↔◌, refl, ◌∙◌, Bool, true, false, List, [], ◌∷◌, none, some, ℤ, any, arith, inl, inr,
  Bool-cases, Option-cases, subst,
}
use fpp_tools.Topology.PortNumbers.{
  PortNumberingState, NumberMap, number_of, number_outputs, get_port_number, use_next_port_number,
}

module _ {ℓ} {Connection : Type ℓ} (eq : Connection → Connection → Bool) where
  -- The connection is one of the list.
  abbrev pub among : List Connection → Connection → Bool
  among cs c = any (λ d. eq d c) cs

  pub number_outputs-some :
      (s : PortNumberingState) (m : NumberMap eq) (c : Connection) (cs : List Connection) {k : ℤ}
      → number_of eq m c ≡ some k
      → number_outputs eq s m (c ∷ cs) ≡ number_outputs eq s m cs
  unfolding number_outputs
  number_outputs-some s m c cs h = ground arith

  pub number_outputs-none :
      (s : PortNumberingState) (m : NumberMap eq) (c : Connection) (cs : List Connection)
      → number_of eq m c ≡ none
      → number_outputs eq s m (c ∷ cs)
        ≡ number_outputs eq (use_next_port_number s) ((c, s.next_port_number) ∷ m) cs
  unfolding number_outputs get_port_number
  number_outputs-none s m c cs h = ground arith

  pub number_outputs-nil :
      (s : PortNumberingState) (m : NumberMap eq) → number_outputs eq s m [] ≡ m
  unfolding number_outputs
  number_outputs-nil s m = refl

  module _ (lawful : (c d : Connection) → (eq c d ≡ true) ↔ (c ≡ d)) where
    pub number_of-same :
        (m : NumberMap eq) (c : Connection) (n : ℤ) → number_of eq ((c, n) ∷ m) c ≡ some n
    unfolding number_of
    number_of-same m c n = ground (arith, (lawful c c).1 refl)

    pub number_of-other :
        (m : NumberMap eq) (c d : Connection) (n : ℤ)
        → eq c d ≡ false
        → number_of eq ((c, n) ∷ m) d ≡ number_of eq m d
    unfolding number_of
    number_of-other m c d n h = rw (h) refl

    -- A number that is there stays when another connection is numbered.
    pub number_of-assign :
        (m : NumberMap eq) (c d : Connection) (n : ℤ) {k : ℤ}
        → number_of eq m c ≡ none
        → number_of eq m d ≡ some k
        → number_of eq ((c, n) ∷ m) d ≡ some k
    number_of-assign m c d n h k = elim (Bool-cases (eq c d)) [
      | inl e ↦
          let same : c ≡ d = (lawful c d).0 e in
          absurd (let h' = subst (λ x. number_of eq m x ≡ none) same h in cc)
      | inr e ↦ number_of-other m c d n e ∙ k
    ]

    -- A number that is there stays.
    pub number_outputs-keeps :
        (s : PortNumberingState) (m : NumberMap eq) (cs : List Connection) (d : Connection) {k : ℤ}
        → number_of eq m d ≡ some k
        → number_of eq (number_outputs eq s m cs) d ≡ some k
    number_outputs-keeps s m [] d h = rw (number_outputs-nil s m) h
    number_outputs-keeps s m (c ∷ cs) d h = elim (Option-cases (number_of eq m c)) [
      | inl e ↦ rw (number_outputs-none s m c cs e) (
          number_outputs-keeps (use_next_port_number s) ((c, s.next_port_number) ∷ m) cs d
            (number_of-assign m c d s.next_port_number e h))
      | inr (k', e) ↦ rw (number_outputs-some s m c cs e) (number_outputs-keeps s m cs d h)
    ]

    -- Every connection of the list has a number in the end.
    pub number_outputs-numbers :
        (s : PortNumberingState) (m : NumberMap eq) (cs : List Connection) (d : Connection)
        → among cs d ≡ true
        → (k : ℤ) × (number_of eq (number_outputs eq s m cs) d ≡ some k)
    number_outputs-numbers s m [] d h = cc
    number_outputs-numbers s m (c ∷ cs) d h = elim (Option-cases (number_of eq m c)) [
      | inl e ↦
          let m1 = (c, s.next_port_number) ∷ m in
          let s1 = use_next_port_number s in
          rw (number_outputs-none s m c cs e) (elim (Bool-cases (eq c d)) [
            | inl e' ↦ (
              s.next_port_number,
              number_outputs-keeps s1 m1 cs d (
                  subst (λ x. number_of eq m1 x ≡ some s.next_port_number) ((lawful c d).0 e')
                    (number_of-same m c s.next_port_number)),
            )
            | inr e' ↦ number_outputs-numbers s1 m1 cs d (ground arith)
          ])
      | inr (k, e) ↦ rw (number_outputs-some s m c cs e) (elim (Bool-cases (eq c d)) [
        | inl e' ↦ (
          k,
          number_outputs-keeps s m cs d
              (subst (λ x. number_of eq m x ≡ some k) ((lawful c d).0 e') e),
        )
        | inr e' ↦ number_outputs-numbers s m cs d (ground arith)
      ])
    ]

    -- A connection that is not in the list is left alone.
    pub number_outputs-frame :
        (s : PortNumberingState) (m : NumberMap eq) (cs : List Connection) (d : Connection)
        → among cs d ≡ false
        → number_of eq (number_outputs eq s m cs) d ≡ number_of eq m d
    number_outputs-frame s m [] d h = rw (number_outputs-nil s m) refl
    number_outputs-frame s m (c ∷ cs) d h = elim (Option-cases (number_of eq m c)) [
      | inl e ↦ rw (number_outputs-none s m c cs e) (
          number_outputs-frame (use_next_port_number s) ((c, s.next_port_number) ∷ m) cs d
            (ground arith)
          ∙ number_of-other m c d s.next_port_number (ground arith))
      | inr (k, e) ↦
          rw (number_outputs-some s m c cs e) (number_outputs-frame s m cs d (ground arith))
    ]
