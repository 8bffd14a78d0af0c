-- ===== src/Pretty/Fits.antt =====
-- fpp_format/src/doc.rs: `fits`, and the width up to the first line break that it compares.
use fpp_tools.Prelude.{
  ℕ, zero, suc, ◌+◌, ◌-◌, ◌==◌, leb, Bool, true, false, List, [], ◌∷◌, if◌then◌else◌, length,
}
use fpp_tools.Pretty.Doc.{
  Doc, Docs, no_docs, doc_and, nil, text, line, hard, nest, concat, group, anchor, Mode, flat,
  break, size,
}

abbrev pub newline_char : ℕ
newline_char = 10

abbrev pub Work : Type 0
Work = List (Mode × Doc)

-- The children of a `Concat`, the first on top.
unfoldable pub push_all : Mode → Docs → Work → Work
push_all m no_docs work = work
push_all m (doc_and d ds) work = (m, d) ∷ push_all m ds work

-- The length of the text before its first line feed, and whether there is one.
unfoldable pub before_lf : List ℕ → ℕ
before_lf [] = 0
before_lf (c ∷ s) = let rest = suc (before_lf s) in if c == newline_char then 0 else rest

unfoldable pub has_lf : List ℕ → Bool
has_lf [] = false
has_lf (c ∷ s) = let rest = has_lf s in if c == newline_char then true else rest

-- The loop of `fits`, where `rem` characters are left on the line; the source's test that `rem` is not
-- negative is made where `n` characters are taken from it.
unfoldable pub fits_loop : ℕ → ℕ → Work → Bool
unfolding push_all before_lf has_lf
fits_loop zero rem work = false
fits_loop (suc fuel) rem [] = true
fits_loop (suc fuel) rem ((m, nil) ∷ work) = fits_loop fuel rem work
fits_loop (suc fuel) rem ((m, text s) ∷ work) =
    let rest = fits_loop fuel (rem - length s) work in
    if has_lf s then leb (before_lf s) rem else if leb (length s) rem then rest else false
fits_loop (suc fuel) rem ((m, anchor k d) ∷ work) = fits_loop fuel rem ((m, d) ∷ work)
fits_loop (suc fuel) rem ((m, concat ds) ∷ work) = fits_loop fuel rem (push_all m ds work)
fits_loop (suc fuel) rem ((m, nest n d) ∷ work) = fits_loop fuel rem ((m, d) ∷ work)
fits_loop (suc fuel) rem ((m, group d) ∷ work) = fits_loop fuel rem ((flat, d) ∷ work)
fits_loop (suc fuel) rem ((flat, line f c) ∷ work) =
    let rest = fits_loop fuel (rem - length f) work in if leb (length f) rem then rest else false
fits_loop (suc fuel) rem ((break, line f c) ∷ work) = true
fits_loop (suc fuel) rem ((flat, hard c) ∷ work) = false
fits_loop (suc fuel) rem ((break, hard c) ∷ work) = true

unfoldable pub work_size : Work → ℕ
unfolding size
work_size [] = 0
work_size ((m, d) ∷ work) = size d + work_size work

-- Whether `d`, rendered flat, and the rest of the documents fit on a line of `width` characters of which
-- `col` are taken. The loop takes a node off its stack in each round.
unfoldable pub fits : ℕ → ℕ → Doc → Work → Bool
unfolding fits_loop work_size
fits width col d rest =
    let work = (flat, d) ∷ rest in
    let left = fits_loop (suc (work_size work)) (width - col) work in
    if leb col width then left else false

-- What the first line of documents is: its width, and whether it goes on behind them, ends in them, or
-- has a hard break where they are to be flat.
pub data Lead : Type 0 where
  goes_on ends : ℕ → Lead
  cannot : Lead

abbrev pub before : ℕ → Lead → Lead
before n (goes_on k) = goes_on (n + k)
before n (ends k) = ends (n + k)
before n cannot = cannot

abbrev pub follow : Lead → Lead → Lead
follow (goes_on n) l = before n l
follow (ends n) l = ends n
follow cannot l = cannot

unfoldable mutual
  pub lead : Mode → Doc → Lead
  lead m nil = goes_on 0
  lead m (text s) = if has_lf s then ends (before_lf s) else goes_on (length s)
  lead flat (line f c) = goes_on (length f)
  lead break (line f c) = ends 0
  lead flat (hard c) = cannot
  lead break (hard c) = ends 0
  lead m (nest n d) = lead m d
  lead m (concat ds) = leads m ds
  lead m (group d) = lead flat d
  lead m (anchor k d) = lead m d

  pub leads : Mode → Docs → Lead
  leads m no_docs = goes_on 0
  leads m (doc_and d ds) = follow (lead m d) (leads m ds)

unfoldable pub work_lead : Work → Lead
unfolding lead
work_lead [] = goes_on 0
work_lead ((m, d) ∷ work) = follow (lead m d) (work_lead work)

abbrev pub within_line : ℕ → Lead → Bool
within_line rem (goes_on n) = leb n rem
within_line rem (ends n) = leb n rem
within_line rem cannot = false
