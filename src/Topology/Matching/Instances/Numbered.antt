-- ===== src/Topology/Matching/Instances/Numbered.antt =====
-- fpp_analysis/src/semantics/resolve_topology/matched_port_numbering.rs: the numbering of one matching gives
-- the two connections of each instance one number, and its lookups never fail.
use fpp_tools.Prelude.{
  ◌≡◌, ◌≢◌, ◌↔◌, sym, ◌∙◌, true, [], ◌∷◌, Option, none, some, inl, inr, ℤ, Result, ok, err,
  and_then, and_then-ok, All, arith, Option-cases, subst,
}
use fpp_tools.Topology.Matching.{
  PortInstance, NumberingError, no_matching_instance, Numbers, State, port_number_at, number_both,
  number_pair, number_connection_pair,
}
use fpp_tools.Topology.Matching.Pairs.{number_connection_pair-Paired}
use fpp_tools.Topology.Matching.Instances.{
  Connections, InstanceConnectionMap, connection_to, number_pairs,
}
use fpp_tools.Topology.Matching.Instances.Missing.{Has}

module _ {ℓ κ} {Connection : Type ℓ} {Instance : Type κ} (cs : Connections Connection Instance)
    (lawful : (c d : Connection) → (cs.same c d ≡ true) ↔ (c ≡ d))
    (lawful_instance : (i j : Instance) → (cs.same_instance i j ≡ true) ↔ (i ≡ j)) where
  -- The two connections have one number at the two ports.
  abbrev pub OneNumber :
      PortInstance → PortInstance → Numbers cs.same → Connection → Connection → Type 0
  OneNumber pi1 pi2 t c1 c2 =
      (n : ℤ) × (port_number_at cs.same t pi1 c1 ≡ some n)
      × (port_number_at cs.same t pi2 c2 ≡ some n)

  -- Every number that was there stays.
  abbrev pub Keeps : Numbers cs.same → Numbers cs.same → Type ℓ
  Keeps t t' =
      (pi : PortInstance) (d : Connection) (k : ℤ)
      → port_number_at cs.same t pi d ≡ some k
      → port_number_at cs.same t' pi d ≡ some k

  OneNumber-Keeps :
      (pi1 pi2 : PortInstance) (t t' : Numbers cs.same) (c1 c2 : Connection)
      → OneNumber pi1 pi2 t c1 c2
      → Keeps t t'
      → OneNumber pi1 pi2 t' c1 c2
  OneNumber-Keeps pi1 pi2 t t' c1 c2 (n, h1, h2) keeps = (n, keeps pi1 c1 n h1, keeps pi2 c2 n h2)

  module _ (icm2 : InstanceConnectionMap cs) (pi1 pi2 : PortInstance) where
    abbrev pub Numbered : Numbers cs.same → Instance × Connection → Type ℓ
    Numbered t (i, c1) =
        (c2 : Connection) → connection_to cs icm2 i ≡ some c2 → OneNumber pi1 pi2 t c1 c2

    Numbered-head :
        (i : Instance) (t : Numbers cs.same) (c1 c2 : Connection)
        → connection_to cs icm2 i ≡ some c2
        → OneNumber pi1 pi2 t c1 c2
        → Numbered t (i, c1)
    Numbered-head i t c1 c2 e one d2 e' =
        let found : Path (Option Connection) (some c2) (some d2) = sym e ∙ e' in
        let same : c2 ≡ d2 = cc in subst (λ x. OneNumber pi1 pi2 t c1 x) same one

    pub number_pairs-Numbered :
        (t : Numbers cs.same) (s : State cs.same) (list1 : InstanceConnectionMap cs)
        {t' : Numbers cs.same}
        → s.pi1 ≡ pi1
        → s.pi2 ≡ pi2
        → number_pairs cs t s icm2 list1 ≡ ok t'
        → All (Numbered t') list1 × Keeps t t'
    unfolding number_pairs
    number_pairs-Numbered t s [] {t'} e1 e2 h =
        let same : t ≡ t' = cc in (tt, subst (Keeps t) same (λ pi d k there. there))
    number_pairs-Numbered t s ((i, c1) ∷ list1) {t'} e1 e2 h =
        elim (Option-cases (connection_to cs icm2 i)) [
          | inl e ↦ absurd (let h' = rw (number_pairs, e) at h in cc)
          | inr (c2, e) ↦
              let ((t1, s1), first, rest) =
                and_then-ok (number_connection_pair cs.same t s c1 c2)
                  (λ (t1, s1). number_pairs cs t1 s1 icm2 list1) (rw (number_pairs, e) at h) in
              let ((one, keeps), ports) =
                number_connection_pair-Paired cs.same lawful t s c1 c2 first in
              let (all, keeps') =
                number_pairs-Numbered t1 s1 list1 (ports.0 ∙ e1) (ports.1 ∙ e2) rest in
              let at_ports : OneNumber pi1 pi2 t1 c1 c2 =
                subst (λ x. OneNumber x pi2 t1 c1 c2) e1
                  (subst (λ x. OneNumber s.pi1 x t1 c1 c2) e2 one) in
              (
                (
                  Numbered-head i t' c1 c2 e (OneNumber-Keeps pi1 pi2 t1 t' c1 c2 at_ports keeps'),
                  all,
                ),
                λ pi d k there. keeps' pi d k (keeps pi d k there),
              )
        ]

  -- The lookup of a pair's connection never fails.
  number_pair-finds :
      (t : Numbers cs.same) (s : State cs.same) (c1 c2 : Connection) (o1 o2 : Option ℤ)
      → number_pair cs.same t s c1 c2 o1 o2 ≢ err no_matching_instance
  unfolding number_pair number_both
  number_pair-finds t s c1 c2 (some n1) (some n2) h = ground arith
  number_pair-finds t s c1 c2 (some n) none h = ground arith
  number_pair-finds t s c1 c2 none (some n) h = ground arith
  number_pair-finds t s c1 c2 none none h = ground arith

  and_then-finds :
      {A B : Type ℓ} (r : Result A (NumberingError Connection))
      (g : A → Result B (NumberingError Connection))
      → r ≢ err no_matching_instance
      → ((a : A) → g a ≢ err no_matching_instance)
      → and_then r g ≢ err no_matching_instance
  and_then-finds (ok a) g hr hg h = hg a h
  and_then-finds (err e) g hr hg h = hr cc

  pub number_pairs-finds :
      (t : Numbers cs.same) (s : State cs.same) (icm2 list1 : InstanceConnectionMap cs)
      → All (λ (i, c). Has cs lawful_instance icm2 i) list1
      → number_pairs cs t s icm2 list1 ≢ err no_matching_instance
  unfolding number_pairs number_connection_pair
  number_pairs-finds t s icm2 [] all h = cc
  number_pairs-finds t s icm2 ((i, c1) ∷ list1) all h =
      let (c2, e) = all.0 in
      and_then-finds (number_connection_pair cs.same t s c1 c2) _
        (number_pair-finds t s c1 c2 (port_number_at cs.same t s.pi1 c1)
          (port_number_at cs.same t s.pi2 c2))
        (λ (t1, s1). number_pairs-finds t1 s1 icm2 list1 all.1) (rw (number_pairs, e) at h)
