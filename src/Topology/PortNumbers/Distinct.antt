-- ===== src/Topology/PortNumbers/Distinct.antt =====
-- fpp_analysis/src/semantics/resolve_topology/general_port_numbering.rs: the numbering of an output port
-- array makes no new duplicates.
use fpp_tools.Prelude.{
  ◌≡◌, ◌↔◌, sym, ◌∙◌, Bool, true, false, List, [], ◌∷◌, none, some, ℤ, pos, arith, inl, inr,
  Bool-cases, Option-cases, subst,
}
use fpp_tools.Topology.PortNumbers.{
  contains, PortNumberingState, NumberMap, number_of, get_used_port_numbers, number_outputs,
  number_output_port_array, initial, use_port_number, use_next_port_number,
}
use fpp_tools.Topology.PortNumbers.Next.{get_next_number_lem}
use fpp_tools.Topology.PortNumbers.Output.{
  among, number_outputs-some, number_outputs-none, number_outputs-nil, number_of-same,
  number_of-other, number_outputs-keeps, number_outputs-numbers, number_outputs-frame,
}

-- The next number of a state is not used.
abbrev Fresh : PortNumberingState → Type 0
Fresh s = contains s.used_port_numbers s.next_port_number ≡ false

use_next_port_number-Fresh : (s : PortNumberingState) → Fresh (use_next_port_number s)
unfolding use_next_port_number use_port_number
use_next_port_number-Fresh s =
    (get_next_number_lem s.next_port_number (s.next_port_number ∷ s.used_port_numbers)).0

initial-Fresh : (used : List ℤ) → Fresh (initial used)
unfolding initial
initial-Fresh used = (get_next_number_lem (pos 0) used).0

contains-head : (n : ℤ) (used : List ℤ) → contains (n ∷ used) n ≡ true
contains-head n used = ground arith

contains-tail : (n k : ℤ) (used : List ℤ) → contains used k ≡ true → contains (n ∷ used) k ≡ true
contains-tail n k used h = ground arith

module _ {ℓ} {Connection : Type ℓ} (eq : Connection → Connection → Bool)
    (lawful : (c d : Connection) → (eq c d ≡ true) ↔ (c ≡ d)) where
  -- The numbers that the connections of the array have are used.
  abbrev Covers : List Connection → PortNumberingState → NumberMap eq → Type ℓ
  Covers array s m =
      (d : Connection) (n : ℤ)
      → among eq array d ≡ true
      → number_of eq m d ≡ some n
      → contains s.used_port_numbers n ≡ true

  get_used_port_numbers-some :
      (m : NumberMap eq) (c : Connection) (cs : List Connection) {n : ℤ}
      → number_of eq m c ≡ some n
      → get_used_port_numbers eq m (c ∷ cs) ≡ n ∷ get_used_port_numbers eq m cs
  unfolding get_used_port_numbers
  get_used_port_numbers-some m c cs h = ground arith

  get_used_port_numbers-none :
      (m : NumberMap eq) (c : Connection) (cs : List Connection)
      → number_of eq m c ≡ none
      → get_used_port_numbers eq m (c ∷ cs) ≡ get_used_port_numbers eq m cs
  unfolding get_used_port_numbers
  get_used_port_numbers-none m c cs h = ground arith

  get_used_port_numbers-Covers :
      (m : NumberMap eq) (array : List Connection) (d : Connection) (n : ℤ)
      → among eq array d ≡ true
      → number_of eq m d ≡ some n
      → contains (get_used_port_numbers eq m array) n ≡ true
  get_used_port_numbers-Covers m [] d n h k = cc
  get_used_port_numbers-Covers m (c ∷ cs) d n h k = elim (Bool-cases (eq c d)) [
    | inl e ↦
        let k' : number_of eq m c ≡ some n =
          subst (λ x. number_of eq m x ≡ some n) (sym ((lawful c d).0 e)) k in
        rw (get_used_port_numbers-some m c cs k') (contains-head n (get_used_port_numbers eq m cs))
    | inr e ↦
        let rest = get_used_port_numbers-Covers m cs d n (ground arith) k in
        elim (Option-cases (number_of eq m c)) [
          | inl none_there ↦ rw (get_used_port_numbers-none m c cs none_there) rest
          | inr (k', there) ↦
              rw (get_used_port_numbers-some m c cs there)
                (contains-tail k' n (get_used_port_numbers eq m cs) rest)
        ]
  ]

  initial-Covers :
      (m : NumberMap eq) (array : List Connection)
      → Covers array (initial (get_used_port_numbers eq m array)) m
  unfolding initial
  initial-Covers m array = get_used_port_numbers-Covers m array

  assign-Covers :
      (array : List Connection) (s : PortNumberingState) (m : NumberMap eq) (c : Connection)
      → Covers array s m
      → Covers array (use_next_port_number s) ((c, s.next_port_number) ∷ m)
  unfolding use_next_port_number use_port_number
  assign-Covers array s m c covers d n h k = elim (Bool-cases (eq c d)) [
    | inl e ↦
        let k' : some s.next_port_number ≡ some n =
          sym (number_of-same eq lawful m c s.next_port_number)
          ∙ subst (λ x. number_of eq ((c, s.next_port_number) ∷ m) x ≡ some n)
              (sym ((lawful c d).0 e)) k in
        let same : s.next_port_number ≡ n = cc in
        subst (λ x. contains (s.next_port_number ∷ s.used_port_numbers) x ≡ true) same
          (contains-head s.next_port_number s.used_port_numbers)
    | inr e ↦
        contains-tail s.next_port_number n s.used_port_numbers
          (covers d n h (sym (number_of-other eq lawful m c d s.next_port_number e) ∙ k))
  ]

  different_sym : (c d : Connection) → eq c d ≡ false → eq d c ≡ false
  different_sym c d h = elim (Bool-cases (eq d c)) [
    | inl e ↦ let equal = (lawful c d).1 (sym ((lawful d c).0 e)) in absurd cc
    | inr e ↦ e
  ]

  -- The connection that got the fresh number is the only one of the array that has it.
  Fresh-alone :
      (array : List Connection) (s : PortNumberingState) (m : NumberMap eq) (c d : Connection)
      → Fresh s
      → Covers array s m
      → among eq array d ≡ true
      → number_of eq ((c, s.next_port_number) ∷ m) d ≡ some s.next_port_number
      → c ≡ d
  Fresh-alone array s m c d fresh covers h k = elim (Bool-cases (eq c d)) [
    | inl e ↦ (lawful c d).0 e
    | inr e ↦
        let k' = sym (number_of-other eq lawful m c d s.next_port_number e) ∙ k in
        let used = covers d s.next_port_number h k' in absurd cc
  ]

  -- Two connections that have one number after a step had it before.
  assigned-before :
      (array : List Connection) (s : PortNumberingState) (m : NumberMap eq) (c d d' : Connection)
      {n : ℤ}
      → Fresh s
      → Covers array s m
      → among eq array d' ≡ true
      → eq d d' ≡ false
      → number_of eq ((c, s.next_port_number) ∷ m) d ≡ some n
      → number_of eq ((c, s.next_port_number) ∷ m) d' ≡ some n
      → number_of eq m d ≡ some n
  assigned-before array s m c d d' {n} fresh covers h' different k k' = elim (Bool-cases (eq c d)) [
    | inr e ↦ sym (number_of-other eq lawful m c d s.next_port_number e) ∙ k
    | inl e ↦
        let m1 : NumberMap eq = (c, s.next_port_number) ∷ m in
        let here : number_of eq m1 d ≡ some s.next_port_number =
          subst (λ x. number_of eq m1 x ≡ some s.next_port_number) ((lawful c d).0 e)
            (number_of-same eq lawful m c s.next_port_number) in
        let same : c ≡ d' = Fresh-alone array s m c d' fresh covers h' (k' ∙ (sym k ∙ here)) in
        let equal = (lawful d d').1 (sym ((lawful c d).0 e) ∙ same) in absurd cc
  ]

  number_outputs-distinct :
      (array : List Connection) (s : PortNumberingState) (m : NumberMap eq) (cs : List Connection)
      (d d' : Connection) {n : ℤ}
      → Fresh s
      → Covers array s m
      → among eq array d ≡ true
      → among eq array d' ≡ true
      → eq d d' ≡ false
      → number_of eq (number_outputs eq s m cs) d ≡ some n
      → number_of eq (number_outputs eq s m cs) d' ≡ some n
      → (number_of eq m d ≡ some n) × (number_of eq m d' ≡ some n)
  number_outputs-distinct array s m [] d d' fresh covers h h' different k k' =
      (rw (number_outputs-nil eq s m) at k, rw (number_outputs-nil eq s m) at k')
  number_outputs-distinct array s m (c ∷ cs) d d' fresh covers h h' different k k' =
      elim (Option-cases (number_of eq m c)) [
        | inl e ↦
            let (l, l') =
              number_outputs-distinct array (use_next_port_number s) ((c, s.next_port_number) ∷ m)
                cs d d' (use_next_port_number-Fresh s) (assign-Covers array s m c covers) h h'
                different (rw (number_outputs-none eq s m c cs e) at k)
                (rw (number_outputs-none eq s m c cs e) at k') in
            let different' : eq d' d ≡ false = different_sym d d' different in
            (
              assigned-before array s m c d d' fresh covers h' different l l',
              assigned-before array s m c d' d fresh covers h different' l' l,
            )
        | inr (x, e) ↦
            number_outputs-distinct array s m cs d d' fresh covers h h' different
              (rw (number_outputs-some eq s m c cs e) at k)
              (rw (number_outputs-some eq s m c cs e) at k')
      ]

  -- The numbering of an output port array: every connection of the array has a number in the end; a
  -- number that is there stays; a connection that is not of the array is left alone; and two different
  -- connections of the array have one number only where they had it before. The equality of connections
  -- is taken to be lawful.
  pub number_output_port_array_lem :
      (m : NumberMap eq) (array : List Connection)
      → ((d : Connection)
          → among eq array d ≡ true
          → (n : ℤ) × (number_of eq (number_output_port_array eq m array) d ≡ some n))
        × ((d : Connection) (n : ℤ)
            → number_of eq m d ≡ some n
            → number_of eq (number_output_port_array eq m array) d ≡ some n)
        × ((d : Connection)
            → among eq array d ≡ false
            → number_of eq (number_output_port_array eq m array) d ≡ number_of eq m d)
        × ((d d' : Connection) (n : ℤ)
            → among eq array d ≡ true
            → among eq array d' ≡ true
            → eq d d' ≡ false
            → number_of eq (number_output_port_array eq m array) d ≡ some n
            → number_of eq (number_output_port_array eq m array) d' ≡ some n
            → (number_of eq m d ≡ some n) × (number_of eq m d' ≡ some n))
  unfolding number_output_port_array
  number_output_port_array_lem m array =
      let used = get_used_port_numbers eq m array in
      (
        λ d h. number_outputs-numbers eq lawful (initial used) m array d h,
        λ d n h. number_outputs-keeps eq lawful (initial used) m array d h,
        λ d h. number_outputs-frame eq lawful (initial used) m array d h,
        λ d d' n h h' different k k'.
            number_outputs-distinct array (initial used) m array d d' (initial-Fresh used)
              (initial-Covers m array) h h' different k k',
      )
