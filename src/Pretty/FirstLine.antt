-- ===== src/Pretty/FirstLine.antt =====
-- fpp_format/src/doc.rs: `fits` compares the width of the first line.
use fpp_tools.Prelude.{
  ℕ, zero, suc, ◌+◌, ◌-◌, leb, ◌≤◌, ◌<◌, ◌≡◌, ◌↔◌, subst, refl, sym, ap, ◌∙◌, Bool, true, false, [],
  ◌∷◌, if◌then◌else◌, length, arith,
}
use fpp_tools.Pretty.Doc.{
  Doc, Docs, no_docs, doc_and, nil, text, line, hard, nest, concat, group, anchor, Mode, flat,
  break, size, sizes,
}
use fpp_tools.Pretty.Fits.{
  Work, push_all, before_lf, has_lf, fits_loop, work_size, fits, Lead, goes_on, ends, cannot,
  before, follow, lead, leads, work_lead, within_line,
}

follow_assoc : (a b c : Lead) → follow (follow a b) c ≡ follow a (follow b c)
follow_assoc (goes_on n) (goes_on k) (goes_on j) = ap goes_on (omega arith)
follow_assoc (goes_on n) (goes_on k) (ends j) = ap ends (omega arith)
follow_assoc (goes_on n) (goes_on k) cannot = refl
follow_assoc (goes_on n) (ends k) c = refl
follow_assoc (goes_on n) cannot c = refl
follow_assoc (ends n) b c = refl
follow_assoc cannot b c = refl

before-zero : (l : Lead) → before 0 l ≡ l
before-zero (goes_on n) = ap goes_on (omega arith)
before-zero (ends n) = ap ends (omega arith)
before-zero cannot = refl

within_line-before :
    (rem n : ℕ) (l : Lead)
    → within_line rem (before n l) ≡ (if leb n rem then within_line (rem - n) l else false)
within_line-before rem n (goes_on k) = ground arith
within_line-before rem n (ends k) = ground arith
within_line-before rem n cannot = ground arith

work_lead-push_all :
    (m : Mode) (ds : Docs) (work : Work)
    → work_lead (push_all m ds work) ≡ follow (leads m ds) (work_lead work)
unfolding work_lead push_all leads
work_lead-push_all m no_docs work = sym (before-zero (work_lead work))
work_lead-push_all m (doc_and d ds) work =
    ap (follow (lead m d)) (work_lead-push_all m ds work)
    ∙ sym (follow_assoc (lead m d) (leads m ds) (work_lead work))

work_size-push_all :
    (m : Mode) (ds : Docs) (work : Work)
    → work_size (push_all m ds work) ≡ sizes ds + work_size work
unfolding work_size push_all sizes
work_size-push_all m no_docs work = omega arith
work_size-push_all m (doc_and d ds) work = omega (arith, work_size-push_all m ds work)

-- The text of a `Text` or a flat `Line` is taken from what is left of the line.
spend :
    (rem n : ℕ) (l : Lead) (rest : Bool)
    → rest ≡ within_line (rem - n) l
    → (if leb n rem then rest else false) ≡ within_line rem (before n l)
spend rem n l rest h = rw (within_line-before rem n l, h) refl

if_follow :
    (b : Bool) (rem : ℕ) (p q : Bool) (x y l : Lead)
    → p ≡ within_line rem (follow x l)
    → q ≡ within_line rem (follow y l)
    → (if b then p else q) ≡ within_line rem (follow (if b then x else y) l)
if_follow true rem p q x y l h k = h
if_follow false rem p q x y l h k = k

fits_loop-lead :
    (fuel rem : ℕ) (work : Work)
    → work_size work < fuel
    → fits_loop fuel rem work ≡ within_line rem (work_lead work)
unfolding fits_loop work_lead work_size size lead
fits_loop-lead zero rem work h = absurd (omega arith)
fits_loop-lead (suc fuel) rem [] h = ground arith
fits_loop-lead (suc fuel) rem ((m, nil) ∷ work) h =
    fits_loop-lead fuel rem work (omega arith)
    ∙ ap (within_line rem) (sym (before-zero (work_lead work)))
fits_loop-lead (suc fuel) rem ((m, text s) ∷ work) h =
    if_follow (has_lf s) rem _ _ (ends (before_lf s)) (goes_on (length s)) (work_lead work) refl (
      spend rem (length s) (work_lead work) _
        (fits_loop-lead fuel (rem - length s) work (omega arith)))
fits_loop-lead (suc fuel) rem ((m, anchor k d) ∷ work) h =
    fits_loop-lead fuel rem ((m, d) ∷ work) (omega arith)
fits_loop-lead (suc fuel) rem ((m, concat ds) ∷ work) h =
    fits_loop-lead fuel rem (push_all m ds work) (omega (arith, work_size-push_all m ds work))
    ∙ ap (within_line rem) (work_lead-push_all m ds work)
fits_loop-lead (suc fuel) rem ((m, nest n d) ∷ work) h =
    fits_loop-lead fuel rem ((m, d) ∷ work) (omega arith)
fits_loop-lead (suc fuel) rem ((m, group d) ∷ work) h =
    fits_loop-lead fuel rem ((flat, d) ∷ work) (omega arith)
fits_loop-lead (suc fuel) rem ((flat, line f c) ∷ work) h =
    spend rem (length f) (work_lead work) _
      (fits_loop-lead fuel (rem - length f) work (omega arith))
fits_loop-lead (suc fuel) rem ((break, line f c) ∷ work) h = ground arith
fits_loop-lead (suc fuel) rem ((flat, hard c) ∷ work) h = refl
fits_loop-lead (suc fuel) rem ((break, hard c) ∷ work) h = ground arith

-- The line that starts at `col` is within `width`.
abbrev pub WithinWidth : ℕ → ℕ → Lead → Type 0
WithinWidth width col (goes_on n) = col + n ≤ width
WithinWidth width col (ends n) = col + n ≤ width
WithinWidth width col cannot = ⊥

within_line-WithinWidth :
    (width col : ℕ) (l : Lead)
    → ((if leb col width then within_line (width - col) l else false) ≡ true)
      ↔ WithinWidth width col l
within_line-WithinWidth width col (goes_on n) = (λ h. ground arith, λ h. ground arith)
within_line-WithinWidth width col (ends n) = (λ h. ground arith, λ h. ground arith)
within_line-WithinWidth width col cannot = (λ h. ground arith, λ h. absurd h)

-- `fits` ends on every document, and holds exactly where the first line of the document, rendered
-- flat, and of all the documents behind it, is within the width: no hard break is to be flat before
-- that line ends, and the line starts at the column.
pub fits_iff :
    (width col : ℕ) (d : Doc) (rest : Work)
    → (fits width col d rest ≡ true) ↔ WithinWidth width col (work_lead ((flat, d) ∷ rest))
unfolding fits
fits_iff width col d rest =
    let work = (flat, d) ∷ rest in
    let same =
      ap (λ b. if leb col width then b else false)
        (fits_loop-lead (suc (work_size work)) (width - col) work (omega arith)) in
    subst (λ b. (b ≡ true) ↔ WithinWidth width col (work_lead work)) (sym same)
      (within_line-WithinWidth width col (work_lead work))
