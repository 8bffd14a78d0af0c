-- ===== src/Pretty/Lines.antt =====
-- fpp_format/src/doc.rs: the line feeds and the last line of the texts that `render` writes.
use fpp_tools.Prelude.{
  ℕ, zero, suc, ◌+◌, ◌≡◌, refl, ap, Bool, true, false, List, [], ◌∷◌, ◌++◌, if◌then◌else◌, length,
  replicate, arith,
}
use fpp_tools.Pretty.Fits.{has_lf}
use fpp_tools.Pretty.Render.{count_lf, after_lf, break_text}

-- The last line of a text.
unfoldable pub last_line : List ℕ → List ℕ
unfolding has_lf after_lf
last_line s = if has_lf s then after_lf s else s

pub count_lf-append : (s t : List ℕ) → count_lf (s ++ t) ≡ count_lf s + count_lf t
unfolding count_lf
count_lf-append [] t = omega arith
count_lf-append (c ∷ s) t = ground (arith, count_lf-append s t)

pub count_lf-none : (s : List ℕ) → has_lf s ≡ false → count_lf s ≡ 0
unfolding count_lf has_lf
count_lf-none [] h = refl
count_lf-none (c ∷ s) h = ground (arith, count_lf-none s)

pub has_lf-append : (s t : List ℕ) → has_lf (s ++ t) ≡ (if has_lf s then true else has_lf t)
unfolding has_lf
has_lf-append [] t = refl
has_lf-append (c ∷ s) t = ground (arith, has_lf-append s t)

-- A text with no line feed goes on with the last line.
pub last_line-append : (s t : List ℕ) → has_lf t ≡ false → last_line (s ++ t) ≡ last_line s ++ t
unfolding last_line has_lf after_lf
last_line-append [] t h = rw (h) refl
last_line-append (c ∷ s) t h =
    let tail = last_line-append s t h in let both = has_lf-append s t in ground arith

-- A text with one starts it again.
pub last_line-after : (s t : List ℕ) → has_lf t ≡ true → last_line (s ++ t) ≡ after_lf t
unfolding last_line has_lf after_lf
last_line-after [] t h = rw (h) refl
last_line-after (c ∷ s) t h =
    let tail = last_line-after s t h in let both = has_lf-append s t in ground arith

pub spaces-inline : (n : ℕ) → has_lf (replicate n b' ') ≡ false
unfolding has_lf
spaces-inline zero = refl
spaces-inline (suc n) = spaces-inline n

pub length-replicate : (n c : ℕ) → length (replicate n c) ≡ n
length-replicate zero c = refl
length-replicate (suc n) c = ap suc (length-replicate n c)

pub break_text-has_lf : (cont : Bool) (n : ℕ) → has_lf (break_text cont n) ≡ true
unfolding break_text has_lf
break_text-has_lf true n = refl
break_text-has_lf false n = refl

pub break_text-after_lf : (cont : Bool) (n : ℕ) → after_lf (break_text cont n) ≡ replicate n b' '
unfolding break_text has_lf after_lf
break_text-after_lf true n = rw (spaces-inline n) refl
break_text-after_lf false n = rw (spaces-inline n) refl

pub break_text-count_lf : (cont : Bool) (n : ℕ) → count_lf (break_text cont n) ≡ 1
unfolding break_text count_lf
break_text-count_lf true n = ap suc (count_lf-none (replicate n b' ') (spaces-inline n))
break_text-count_lf false n = ap suc (count_lf-none (replicate n b' ') (spaces-inline n))
