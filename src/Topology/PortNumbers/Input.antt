-- ===== src/Topology/PortNumbers/Input.antt =====
-- fpp_analysis/src/semantics/resolve_topology/general_port_numbering.rs: the numbering of an input port
-- array.
use fpp_tools.Prelude.{
  ◌≡◌, ◌↔◌, refl, sym, ◌∙◌, ap, Bool, true, false, List, [], ◌∷◌, Option, none, some, ℤ, pos, arith,
  inl, inr, Bool-cases, Option-cases, subst,
}
use fpp_tools.Topology.PortNumbers.{NumberMap, number_of, number_input_port_array}
use fpp_tools.Topology.PortNumbers.Output.{among, number_of-same, number_of-other}

-- A number, or 0 in place of none.
abbrev pub number_or_zero : Option ℤ → ℤ
number_or_zero none = pos 0
number_or_zero (some n) = n

module _ {ℓ} {Connection : Type ℓ} (eq : Connection → Connection → Bool)
    (lawful : (c d : Connection) → (eq c d ≡ true) ↔ (c ≡ d)) where
  -- What the numbering of `array` makes of the number of a connection.
  abbrev pub Zeroed : NumberMap eq → List Connection → Connection → Type 0
  Zeroed m array d =
      (among eq array d ≡ true
        → number_of eq (number_input_port_array eq m array) d
          ≡ some (number_or_zero (number_of eq m d)))
      × (among eq array d ≡ false
          → number_of eq (number_input_port_array eq m array) d ≡ number_of eq m d)

  number_input_port_array-some :
      (m : NumberMap eq) (c : Connection) (cs : List Connection) {k : ℤ}
      → number_of eq m c ≡ some k
      → number_input_port_array eq m (c ∷ cs) ≡ number_input_port_array eq m cs
  unfolding number_input_port_array
  number_input_port_array-some m c cs h = ground arith

  number_input_port_array-none :
      (m : NumberMap eq) (c : Connection) (cs : List Connection)
      → number_of eq m c ≡ none
      → number_input_port_array eq m (c ∷ cs) ≡ number_input_port_array eq ((c, pos 0) ∷ m) cs
  unfolding number_input_port_array
  number_input_port_array-none m c cs h = ground arith

  -- A number that is there stays.
  number_input_port_array-keeps :
      (m : NumberMap eq) (array : List Connection) (d : Connection) {k : ℤ}
      → Zeroed m array d
      → number_of eq m d ≡ some k
      → number_of eq (number_input_port_array eq m array) d ≡ some k
  number_input_port_array-keeps m array d (there, absent) h = elim (Bool-cases (among eq array d)) [
    | inl e ↦ there e ∙ ap (λ o. some (number_or_zero o)) h
    | inr e ↦ absent e ∙ h
  ]

  -- The numbering of an input port array: a connection of the array without a number gets number 0; all
  -- other numbers stay, and so do the connections that are not of the array. The equality of connections
  -- is taken to be lawful.
  pub number_input_port_array_lem :
      (m : NumberMap eq) (array : List Connection) (d : Connection)
      → (among eq array d ≡ true
          → number_of eq (number_input_port_array eq m array) d
            ≡ some (number_or_zero (number_of eq m d)))
        × (among eq array d ≡ false
            → number_of eq (number_input_port_array eq m array) d ≡ number_of eq m d)
  unfolding number_input_port_array
  number_input_port_array_lem m [] d = (λ h. cc, λ h. refl)
  number_input_port_array_lem m (c ∷ cs) d = elim (Option-cases (number_of eq m c)) [
    | inr (k, e) ↦
        let rest = number_input_port_array_lem m cs d in
        let skip = ap (λ x. number_of eq x d) (number_input_port_array-some m c cs e) in
        (elim (Bool-cases (eq c d)) [
          | inl f ↦
              let here = subst (λ x. number_of eq m x ≡ some k) ((lawful c d).0 f) e in
              (
                λ h.
                    skip
                    ∙ (number_input_port_array-keeps m cs d rest here
                        ∙ sym (ap (λ o. some (number_or_zero o)) here)),
                λ h. absurd (ground arith),
              )
          | inr f ↦ (λ h. skip ∙ rest.0 (ground arith), λ h. skip ∙ rest.1 (ground arith))
        ])
    | inl e ↦
        let m1 : NumberMap eq = (c, pos 0) ∷ m in
        let rest = number_input_port_array_lem m1 cs d in
        let step = ap (λ x. number_of eq x d) (number_input_port_array-none m c cs e) in
        (elim (Bool-cases (eq c d)) [
          | inl f ↦
              let same = (lawful c d).0 f in
              let zero_there =
                subst (λ x. number_of eq m1 x ≡ some (pos 0)) same
                  (number_of-same eq lawful m c (pos 0)) in
              let none_there = subst (λ x. number_of eq m x ≡ none) same e in
              (
                λ h.
                    step
                    ∙ (number_input_port_array-keeps m1 cs d rest zero_there
                        ∙ sym (ap (λ o. some (number_or_zero o)) none_there)),
                λ h. absurd (ground arith),
              )
          | inr f ↦
              let other = number_of-other eq lawful m c d (pos 0) f in
              (
                λ h. step ∙ (rest.0 (ground arith) ∙ ap (λ o. some (number_or_zero o)) other),
                λ h. step ∙ (rest.1 (ground arith) ∙ other),
              )
        ])
  ]
