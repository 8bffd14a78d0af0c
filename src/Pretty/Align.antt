-- ===== src/Pretty/Align.antt =====
-- fpp_format/src/doc.rs: `align`. An index of an anchor is the anchor itself, a `BTreeMap` the list of
-- its entries in the order of their keys, and a `HashMap` the list of its entries, the latest first.
use Prim.Native.Nat.{compare, Ordering}
use fpp_tools.Prelude.{
  ℕ, zero, suc, ◌+◌, ◌-◌, ◌==◌, ltb, pos_part, neg_part, Bool, true, List, [], ◌∷◌, ◌++◌, Option,
  none, some, if◌then◌else◌, take, drop, replicate,
}
use fpp_tools.Pretty.Doc.{AnchorKind, post_annotation, arrow, equals}
use fpp_tools.Pretty.Fits.{newline_char}
use fpp_tools.Pretty.Render.{Anchor}

-- `text.split('\n')` and `lines.join("\n")`.
abbrev pub on_first : (List ℕ → List ℕ) → List (List ℕ) → List (List ℕ)
on_first f [] = f [] ∷ []
on_first f (l ∷ ls) = f l ∷ ls

unfoldable pub split_lines : List ℕ → List (List ℕ)
split_lines [] = [] ∷ []
split_lines (c ∷ s) =
    let rest = split_lines s in if c == newline_char then [] ∷ rest else on_first (λ l. c ∷ l) rest

unfoldable pub join_lines : List (List ℕ) → List ℕ
join_lines [] = []
join_lines (l ∷ []) = l
join_lines (l ∷ k ∷ ls) = l ++ (newline_char ∷ join_lines (k ∷ ls))

abbrev pub kind_rank : AnchorKind → ℕ
kind_rank post_annotation = 0
kind_rank arrow = 1
kind_rank equals = 2

abbrev pub then_by : Ordering → Ordering → Ordering
then_by Ordering.lt o = Ordering.lt
then_by Ordering.eq o = o
then_by Ordering.gt o = Ordering.gt

-- The order of the keys `(kind, level)`.
unfoldable pub compare_keys : Anchor → Anchor → Ordering
compare_keys a b =
    then_by (compare (kind_rank a.kind) (kind_rank b.kind))
      (compare (pos_part a.level + neg_part b.level) (pos_part b.level + neg_part a.level))

-- A bucket has the anchors of one key; its key is that of its first anchor.
abbrev pub Bucket : Type 0
Bucket = List Anchor

unfoldable pub add_to_bucket : Anchor → List Bucket → List Bucket
unfolding compare_keys
add_to_bucket a [] = (a ∷ []) ∷ []
add_to_bucket a ([] ∷ buckets) = add_to_bucket a buckets
add_to_bucket a ((b ∷ bs) ∷ buckets) =
    let later = (b ∷ bs) ∷ add_to_bucket a buckets in
    elim (compare_keys a b) [
      | Ordering.lt ↦ (a ∷ []) ∷ (b ∷ bs) ∷ buckets
      | Ordering.eq ↦ (b ∷ (bs ++ a ∷ [])) ∷ buckets
      | Ordering.gt ↦ later
    ]

unfoldable pub add_anchors : List Anchor → List Bucket → List Bucket
unfolding add_to_bucket
add_anchors [] buckets = buckets
add_anchors (a ∷ anchors) buckets = add_anchors anchors (add_to_bucket a buckets)

abbrev pub last_of : List Anchor → Option Anchor
last_of [] = none
last_of (a ∷ []) = some a
last_of (a ∷ b ∷ more) = last_of (b ∷ more)

abbrev pub next_row : Option Anchor → Anchor → Bool
next_row none a = true
next_row (some b) a = a.row == b.row + 1

-- The maximal runs of anchors on consecutive lines, `run` being the current one.
unfoldable pub split_runs : List Anchor → List Anchor → List (List Anchor)
split_runs [] [] = []
split_runs (b ∷ run) [] = (b ∷ run) ∷ []
split_runs run (a ∷ more) =
    let longer = split_runs (run ++ a ∷ []) more in
    let fresh = run ∷ split_runs (a ∷ []) more in if next_row (last_of run) a then longer else fresh

unfoldable pub all_runs : List Bucket → List (List Anchor)
unfolding split_runs
all_runs [] = []
all_runs (b ∷ buckets) = split_runs [] b ++ all_runs buckets

abbrev pub first_col : List Anchor → ℕ
first_col [] = 0
first_col (a ∷ more) = a.col

-- `groups.sort_by_key`, which is stable.
unfoldable pub insert_group : List Anchor → List (List Anchor) → List (List Anchor)
insert_group g [] = g ∷ []
insert_group g (h ∷ groups) =
    let later = h ∷ insert_group g groups in
    if ltb (first_col h) (first_col g) then later else g ∷ h ∷ groups

unfoldable pub sort_groups : List (List Anchor) → List (List Anchor)
unfolding insert_group
sort_groups [] = []
sort_groups (g ∷ groups) = insert_group g (sort_groups groups)

abbrev pub Shifts : Type 0
Shifts = List (ℕ × ℕ)

unfoldable pub shift_of : ℕ → Shifts → ℕ
shift_of row [] = 0
shift_of row ((r, n) ∷ shifts) =
    let earlier = shift_of row shifts in if r == row then n else earlier

abbrev pub max : ℕ → ℕ → ℕ
max a b = if ltb a b then b else a

-- The greatest column of the group, shifts included.
unfoldable pub target_col : Shifts → List Anchor → ℕ
unfolding shift_of
target_col shifts [] = 0
target_col shifts (a ∷ more) = max (a.col + shift_of a.row shifts) (target_col shifts more)

abbrev pub insert_spaces : ℕ → ℕ → List ℕ → List ℕ
insert_spaces at n l = take at l ++ (replicate n b' ' ++ drop at l)

-- The line at `row` with spaces inserted; none if there is no such line.
unfoldable pub pad_line : ℕ → ℕ → ℕ → List (List ℕ) → Option (List (List ℕ))
pad_line row at n [] = none
pad_line zero at n (l ∷ ls) = some (insert_spaces at n l ∷ ls)
pad_line (suc row) at n (l ∷ ls) = elim (pad_line row at n ls) [
  | none ↦ none
  | some ms ↦ some (l ∷ ms)
]

-- The lines and the shifts once `n` spaces are inserted on the anchor's line, if there is such a line.
unfoldable pub shifted :
    Anchor → ℕ → List (List ℕ) → Shifts → Option (List (List ℕ)) → List (List ℕ) × Shifts
unfolding shift_of
shifted a n lines shifts none = (lines, shifts)
shifted a n lines shifts (some padded) = (padded, (a.row, shift_of a.row shifts + n) ∷ shifts)

-- The lines and the shifts after an anchor of a group is moved to `target`.
unfoldable pub align_anchor : ℕ → Anchor → List (List ℕ) × Shifts → List (List ℕ) × Shifts
unfolding shift_of pad_line shifted
align_anchor target a (lines, shifts) =
    let at = a.col + shift_of a.row shifts in
    if ltb at target
    then shifted a (target - at) lines shifts (pad_line a.row at (target - at) lines)
    else (lines, shifts)

unfoldable pub align_group : ℕ → List Anchor → List (List ℕ) × Shifts → List (List ℕ) × Shifts
unfolding align_anchor
align_group target [] state = state
align_group target (a ∷ more) state = align_group target more (align_anchor target a state)

unfoldable pub align_groups : List (List Anchor) → List (List ℕ) × Shifts → List (List ℕ) × Shifts
unfolding align_group target_col
align_groups [] state = state
align_groups (g ∷ groups) (lines, shifts) =
    align_groups groups (align_group (target_col shifts g) g (lines, shifts))

unfoldable pub align : List ℕ → List Anchor → List ℕ
unfolding split_lines join_lines add_anchors all_runs sort_groups align_groups
align text [] = text
align text (a ∷ anchors) =
    let groups = sort_groups (all_runs (add_anchors (a ∷ anchors) [])) in
    join_lines (align_groups groups (split_lines text, [])).0
