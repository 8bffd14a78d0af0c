-- ===== src/Topology/Matching/Pairs.antt =====
-- fpp_analysis/src/semantics/resolve_topology/matched_port_numbering.rs: a pair of connections that is
-- numbered has one number at its two ports.
use fpp_tools.Prelude.{
  ◌≡◌, ◌↔◌, ◌⊎◌, inl, inr, refl, sym, ◌∙◌, Bool, true, ◌∷◌, Option, none, some, ℤ, ◌==ℤ◌, leb_ℤ,
  Result, ok, arith, Bool-cases, Option-cases, eq_of_parts, subst,
}
use fpp_tools.Topology.PortNumbers.{NumberMap, number_of, get_port_number}
use fpp_tools.Topology.PortNumbers.Output.{number_of-same, number_of-other}
use fpp_tools.Topology.Matching.{
  PortInstance, is_input, Numbers, State, port_number_at, assign_number_at, number_both,
  number_pair, number_connection_pair, connection_at, NumberingError,
}

module _ {ℓ} {Connection : Type ℓ} (eq : Connection → Connection → Bool)
    (lawful : (c d : Connection) → (eq c d ≡ true) ↔ (c ≡ d)) where
  assign-same :
      (t : Numbers eq) (pi : PortInstance) (c : Connection) (n : ℤ)
      → port_number_at eq (assign_number_at eq t pi c n) pi c ≡ some n
  unfolding port_number_at assign_number_at
  assign-same t pi c n = elim (Bool-cases (is_input pi)) [
    | inl i ↦ rw (i) (number_of-same eq lawful t.to_port_number_map c n)
    | inr i ↦ rw (i) (number_of-same eq lawful t.from_port_number_map c n)
  ]

  number_of-either :
      (m : NumberMap eq) (c d : Connection) (n : ℤ)
      → (number_of eq ((c, n) ∷ m) d ≡ number_of eq m d)
        ⊎ ((number_of eq ((c, n) ∷ m) d ≡ some n) × (number_of eq m d ≡ number_of eq m c))
  number_of-either m c d n = elim (Bool-cases (eq c d)) [
    | inr e ↦ inl (number_of-other eq lawful m c d n e)
    | inl e ↦
        let same = (lawful c d).0 e in
        inr (
          subst (λ x. number_of eq ((c, n) ∷ m) x ≡ some n) same (number_of-same eq lawful m c n),
          subst (λ x. number_of eq m x ≡ number_of eq m c) same refl,
        )
  ]

  -- Another number is read as before, or the read is at the place that was written.
  assign-either :
      (t : Numbers eq) (pi qi : PortInstance) (c d : Connection) (n : ℤ)
      → (port_number_at eq (assign_number_at eq t pi c n) qi d ≡ port_number_at eq t qi d)
        ⊎ ((port_number_at eq (assign_number_at eq t pi c n) qi d ≡ some n)
            × (port_number_at eq t qi d ≡ port_number_at eq t pi c))
  unfolding port_number_at assign_number_at
  assign-either t pi qi c d n = elim (Bool-cases (is_input pi)) [
    | inl i ↦ (elim (Bool-cases (is_input qi)) [
      | inl j ↦ rw (i, j) (number_of-either t.to_port_number_map c d n)
      | inr j ↦ rw (i, j) (inl refl)
    ])
    | inr i ↦ (elim (Bool-cases (is_input qi)) [
      | inl j ↦ rw (i, j) (inl refl)
      | inr j ↦ rw (i, j) (number_of-either t.from_port_number_map c d n)
    ])
  ]

  -- A number that is there stays when a place without one is written.
  assign-keeps :
      (t : Numbers eq) (pi qi : PortInstance) (c d : Connection) (n : ℤ) {k : ℤ}
      → port_number_at eq t pi c ≡ none
      → port_number_at eq t qi d ≡ some k
      → port_number_at eq (assign_number_at eq t pi c n) qi d ≡ some k
  assign-keeps t pi qi c d n h k = elim (assign-either t pi qi c d n) [
    | inl e ↦ e ∙ k
    | inr (e, e') ↦ absurd (let clash = sym h ∙ (sym e' ∙ k) in cc)
  ]

  -- After a write of `n`, another write of `n` keeps every number, where neither place had one.
  assign-twice :
      (t : Numbers eq) (pi qi ri : PortInstance) (c c' d : Connection) (n : ℤ) {k : ℤ}
      → port_number_at eq t pi c ≡ none
      → port_number_at eq t qi c' ≡ none
      → port_number_at eq t ri d ≡ some k
      → port_number_at eq (assign_number_at eq (assign_number_at eq t pi c n) qi c' n) ri d ≡ some k
  assign-twice t pi qi ri c c' d n {k} h h' there =
      let t1 = assign_number_at eq t pi c n in
      let once = assign-keeps t pi ri c d n h there in
      elim (assign-either t1 qi ri c' d n) [
        | inl e ↦ e ∙ once
        | inr (e, e') ↦ (elim (assign-either t pi qi c c' n) [
          | inl f ↦ absurd (let clash = sym h' ∙ (sym f ∙ (sym e' ∙ once)) in cc)
          | inr (f, f') ↦ e ∙ (sym f ∙ (sym e' ∙ once))
        ])
      ]

  assign-again :
      (t : Numbers eq) (pi qi : PortInstance) (c c' : Connection) (n : ℤ)
      → port_number_at eq t pi c ≡ some n
      → port_number_at eq (assign_number_at eq t qi c' n) pi c ≡ some n
  assign-again t pi qi c c' n h = elim (assign-either t qi pi c' c n) [
    | inl e ↦ e ∙ h
    | inr (e, e') ↦ e
  ]

  -- The two connections have one number at the two ports, and every number that was there stays.
  abbrev pub Paired : Numbers eq → State eq → Connection → Connection → Numbers eq → Type ℓ
  Paired t s c1 c2 t' =
      ((n : ℤ) × (port_number_at eq t' s.pi1 c1 ≡ some n)
        × (port_number_at eq t' s.pi2 c2 ≡ some n))
      × ((pi : PortInstance) (d : Connection) (k : ℤ)
          → port_number_at eq t pi d ≡ some k
          → port_number_at eq t' pi d ≡ some k)

  -- The ports of a state.
  abbrev pub SamePorts : State eq → State eq → Type 0
  SamePorts s s' = (s'.pi1 ≡ s.pi1) × (s'.pi2 ≡ s.pi2)

  of_ok {κ} :
      (P : Numbers eq × State eq → Type κ) {a b : Numbers eq × State eq}
      → Path (Result (Numbers eq × State eq) (NumberingError Connection)) (ok a) (ok b)
      → P a
      → P b
  of_ok P {a} {b} h x = let e : a ≡ b = cc in subst P e x

  module _ (t : Numbers eq) (s : State eq) (c1 c2 : Connection) where
    abbrev Done : Numbers eq × State eq → Type ℓ
    Done (t', s') = Paired t s c1 c2 t' × SamePorts s s'

    number_both-Done :
        {r : Numbers eq × State eq}
        → port_number_at eq t s.pi1 c1 ≡ none
        → port_number_at eq t s.pi2 c2 ≡ none
        → number_both eq t s c1 c2 ≡ ok r
        → Done r
    unfolding number_both
    number_both-Done {r} h1 h2 h =
        let n = (get_port_number s.numbering).1 in
        elim (Bool-cases (leb_ℤ s.pi1.port_array_size n)) [
          | inl e ↦ absurd (let h' = rw (number_both, e) at h in cc)
          | inr e ↦ of_ok Done (rw (number_both, e) at h) (
            (
              (
                n,
                assign-again (assign_number_at eq t s.pi1 c1 n) s.pi1 s.pi2 c1 c2 n
                    (assign-same t s.pi1 c1 n),
                assign-same (assign_number_at eq t s.pi1 c1 n) s.pi2 c2 n,
              ),
              λ pi d k there. assign-twice t s.pi1 s.pi2 pi c1 c2 d n h1 h2 there,
            ),
            (refl, refl),
          )
        ]

    number_pair-Done :
        (o1 o2 : Option ℤ) {r : Numbers eq × State eq}
        → port_number_at eq t s.pi1 c1 ≡ o1
        → port_number_at eq t s.pi2 c2 ≡ o2
        → number_pair eq t s c1 c2 o1 o2 ≡ ok r
        → Done r
    unfolding number_pair
    number_pair-Done (some n1) (some n2) h1 h2 h = elim (Bool-cases (n1 ==ℤ n2)) [
      | inl e ↦
          let same : n1 ≡ n2 = eq_of_parts n1 n2 (ground arith) in
          of_ok Done (rw (number_pair, e) at h) (
            (
              (n1, h1, subst (λ x. port_number_at eq t s.pi2 c2 ≡ some x) (sym same) h2),
              λ pi d k there. there,
            ),
            (refl, refl),
          )
      | inr e ↦ absurd (let h' = rw (number_pair, e) at h in cc)
    ]
    number_pair-Done (some n) none h1 h2 h = elim (Option-cases (connection_at eq s.pcm2 n)) [
      | inl e ↦ of_ok Done (rw (number_pair, e) at h) (
        (
          (n, assign-again t s.pi1 s.pi2 c1 c2 n h1, assign-same t s.pi2 c2 n),
          λ pi d k there. assign-keeps t s.pi2 pi c2 d n h2 there,
        ),
        (refl, refl),
      )
      | inr (prev, e) ↦ absurd (let h' = rw (number_pair, e) at h in cc)
    ]
    number_pair-Done none (some n) h1 h2 h = elim (Option-cases (connection_at eq s.pcm1 n)) [
      | inl e ↦ of_ok Done (rw (number_pair, e) at h) (
        (
          (n, assign-same t s.pi1 c1 n, assign-again t s.pi2 s.pi1 c2 c1 n h2),
          λ pi d k there. assign-keeps t s.pi1 pi c1 d n h1 there,
        ),
        (refl, refl),
      )
      | inr (prev, e) ↦ absurd (let h' = rw (number_pair, e) at h in cc)
    ]
    number_pair-Done none none h1 h2 h = number_both-Done h1 h2 h

  pub number_connection_pair-Paired :
      (t : Numbers eq) (s : State eq) (c1 c2 : Connection) {t' : Numbers eq} {s' : State eq}
      → number_connection_pair eq t s c1 c2 ≡ ok (t', s')
      → Paired t s c1 c2 t' × SamePorts s s'
  unfolding number_connection_pair
  number_connection_pair-Paired t s c1 c2 h =
      number_pair-Done t s c1 c2 (port_number_at eq t s.pi1 c1) (port_number_at eq t s.pi2 c2) refl
        refl h
