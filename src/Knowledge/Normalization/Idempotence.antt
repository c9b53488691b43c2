-- ===== src/Knowledge/Normalization/Idempotence.antt =====
-- What kb_mcp/ingestion/normalization.py promises: a text in normal form stays as it is.
use superoffice_ai_support_m.Common.{
  ℕ, ◌≡◌, refl, ap, ap₂, ◌∙◌, Bool, true, not, ◌&&◌, List, [], ◌∷◌, ◌++◌, keep, all, all-append,
  All, is_empty, Text, ◌==◌, arith, Bool-cases, inl, inr, and_parts,
}
use superoffice_ai_support_m.Knowledge.Normalization.{
  line_endings, is_kept, prepend, split_lines, rstrip_line, rstrip_lines, drop_leading,
  drop_trailing, join_lines, normalize_text,
}

-- A character that may stand inside a line of a normal form.
is_inner : ℕ → Bool
is_inner c = is_kept c && not (c == b'\n')

-- A line of a normal form.
abbrev IsLine : Text → Type 0
IsLine line = (all is_inner line ≡ true) × (rstrip_line line ≡ line)

all-keep : (s : Text) → all is_kept (keep is_kept s) ≡ true
all-keep [] = refl
all-keep (c ∷ s) = ground (arith, all-keep s)

keep-all : (s : Text) → all is_kept s ≡ true → keep is_kept s ≡ s
keep-all [] h = refl
keep-all (c ∷ s) h = ground (arith, keep-all s, h)

line_endings_kept : (s : Text) → all is_kept s ≡ true → line_endings s ≡ s
unfolding line_endings is_kept
line_endings_kept [] h = refl
line_endings_kept (c ∷ s) h = ground (arith, line_endings_kept s, h)

rstrip_line-rstrip_line : (s : Text) → rstrip_line (rstrip_line s) ≡ rstrip_line s
unfolding rstrip_line
rstrip_line-rstrip_line [] = refl
rstrip_line-rstrip_line (c ∷ s) = ground (arith, rstrip_line-rstrip_line s)

all-rstrip_line : (p : ℕ → Bool) (s : Text) → all p s ≡ true → all p (rstrip_line s) ≡ true
unfolding rstrip_line
all-rstrip_line p [] h = refl
all-rstrip_line p (c ∷ s) h = ground (arith, all-rstrip_line p s, h)

abbrev AreInner : List Text → Type 0
AreInner lines = All (λ line. all is_inner line ≡ true) lines

prepend-inner :
    (c : ℕ) (lines : List Text) → is_inner c ≡ true → AreInner lines → AreInner (prepend c lines)
unfolding prepend
prepend-inner c [] here rest = (ground (arith, here), tt)
prepend-inner c (line ∷ lines) here (first, rest) = (ground (arith, here, first), rest)

split_lines-inner : (s : Text) → all is_kept s ≡ true → AreInner (split_lines s)
unfolding split_lines is_inner
split_lines-inner [] h = (refl, tt)
split_lines-inner (c ∷ s) h =
    let (here, later) = and_parts (is_kept c) (all is_kept s) h in
    let rest = split_lines-inner s later in
    elim (Bool-cases (c == 10)) [
      | inl newline ↦ rw newline (refl, rest)
      | inr other ↦
          rw other (prepend-inner c (split_lines s) (rw (is_inner, here, other) refl) rest)
    ]

rstrip_lines-lines : (lines : List Text) → AreInner lines → All IsLine (rstrip_lines lines)
unfolding rstrip_lines
rstrip_lines-lines [] h = tt
rstrip_lines-lines (line ∷ lines) (here, later) = (
  (all-rstrip_line is_inner line here, rstrip_line-rstrip_line line),
  rstrip_lines-lines lines later,
)

drop_leading-lines : (lines : List Text) → All IsLine lines → All IsLine (drop_leading lines)
unfolding drop_leading
drop_leading-lines [] h = tt
drop_leading-lines (line ∷ lines) (here, later) = elim (Bool-cases (is_empty line)) [
  | inl empty ↦ rw empty (drop_leading-lines lines later)
  | inr solid ↦ rw solid (here, later)
]

drop_trailing-lines : (lines : List Text) → All IsLine lines → All IsLine (drop_trailing lines)
unfolding drop_trailing
drop_trailing-lines [] h = tt
drop_trailing-lines (line ∷ lines) (here, later) =
    elim (Bool-cases (is_empty (drop_trailing lines) && is_empty line)) [
      | inl empty ↦ rw empty tt
      | inr solid ↦ rw solid (here, drop_trailing-lines lines later)
    ]

drop_trailing-drop_trailing :
    (lines : List Text) → drop_trailing (drop_trailing lines) ≡ drop_trailing lines
unfolding drop_trailing
drop_trailing-drop_trailing [] = refl
drop_trailing-drop_trailing (line ∷ lines) = ground (arith, drop_trailing-drop_trailing lines)

-- The first line, if there is one, is not empty.
abbrev starts_solid : List Text → Bool
starts_solid [] = true
starts_solid (line ∷ lines) = not (is_empty line)

drop_leading-solid : (lines : List Text) → starts_solid (drop_leading lines) ≡ true
unfolding drop_leading
drop_leading-solid [] = refl
drop_leading-solid (line ∷ lines) = ground (arith, drop_leading-solid lines)

drop_trailing-solid :
    (lines : List Text) → starts_solid lines ≡ true → starts_solid (drop_trailing lines) ≡ true
unfolding drop_trailing
drop_trailing-solid [] h = refl
drop_trailing-solid (line ∷ lines) h = ground (arith, h)

drop_leading_of_solid : (lines : List Text) → starts_solid lines ≡ true → drop_leading lines ≡ lines
unfolding drop_leading
drop_leading_of_solid [] h = refl
drop_leading_of_solid (line ∷ lines) h = ground (arith, h)

-- The lines of a normal form.
abbrev AreNormal : List Text → Type 0
AreNormal lines = All IsLine lines × (drop_leading lines ≡ lines) × (drop_trailing lines ≡ lines)

normal_lines :
    (lines : List Text) → All IsLine lines → AreNormal (drop_trailing (drop_leading lines))
normal_lines lines h =
    let kept = drop_leading lines in
    (
      drop_trailing-lines kept (drop_leading-lines lines h),
      drop_leading_of_solid (drop_trailing kept)
          (drop_trailing-solid kept (drop_leading-solid lines)),
      drop_trailing-drop_trailing kept,
    )

-- Splitting a line that goes on, or that ends the text.
split_lines-line : (line : Text) → all is_inner line ≡ true → split_lines line ≡ line ∷ []
unfolding split_lines is_inner prepend
split_lines-line [] h = refl
split_lines-line (c ∷ line) h = ground (arith, split_lines-line line, h)

split_lines-append :
    (line rest : Text)
    → all is_inner line ≡ true
    → split_lines (line ++ 10 ∷ rest) ≡ line ∷ split_lines rest
unfolding split_lines is_inner prepend
split_lines-append [] rest h = refl
split_lines-append (c ∷ line) rest h = ground (arith, split_lines-append line rest, h)

split_lines-join_lines :
    (line : Text) (lines : List Text)
    → All IsLine (line ∷ lines)
    → split_lines (join_lines (line ∷ lines)) ≡ line ∷ lines
unfolding join_lines
split_lines-join_lines line [] (here, later) = split_lines-line line here.0
split_lines-join_lines line (next ∷ lines) (here, later) =
    split_lines-append line (join_lines (next ∷ lines)) here.0
    ∙ ap (λ rest. line ∷ rest) (split_lines-join_lines next lines later)

all_kept-inner : (s : Text) → all is_inner s ≡ true → all is_kept s ≡ true
unfolding is_inner
all_kept-inner [] h = refl
all_kept-inner (c ∷ s) h = ground (arith, all_kept-inner s, h)

join_lines-kept : (lines : List Text) → All IsLine lines → all is_kept (join_lines lines) ≡ true
unfolding join_lines is_kept
join_lines-kept [] h = refl
join_lines-kept (line ∷ []) (here, later) = all_kept-inner line here.0
join_lines-kept (line ∷ next ∷ lines) (here, later) =
    rw
      (
        all-append is_kept line (10 ∷ join_lines (next ∷ lines)),
        all_kept-inner line here.0,
        join_lines-kept (next ∷ lines) later,
      )
      refl

rstrip_lines_fixed : (lines : List Text) → All IsLine lines → rstrip_lines lines ≡ lines
unfolding rstrip_lines
rstrip_lines_fixed [] h = refl
rstrip_lines_fixed (line ∷ lines) (here, later) = ap₂ ◌∷◌ here.1 (rstrip_lines_fixed lines later)

normalize_text-join_lines :
    (lines : List Text) → AreNormal lines → normalize_text (join_lines lines) ≡ join_lines lines
unfolding normalize_text
normalize_text-join_lines [] h = refl
normalize_text-join_lines (line ∷ lines) (good, leading, trailing) =
    let text = join_lines (line ∷ lines) in
    let kept = join_lines-kept (line ∷ lines) good in
    let trimmed : List Text → Text = λ ls. join_lines (drop_trailing (drop_leading ls)) in
    ap (λ t. trimmed (rstrip_lines (split_lines (keep is_kept t)))) (line_endings_kept text kept)
    ∙ ap (λ t. trimmed (rstrip_lines (split_lines t))) (keep-all text kept)
    ∙ ap (λ ls. trimmed (rstrip_lines ls)) (split_lines-join_lines line lines good)
    ∙ ap trimmed (rstrip_lines_fixed (line ∷ lines) good)
    ∙ ap (λ ls. join_lines (drop_trailing ls)) leading
    ∙ ap join_lines trailing

-- Normalizing a normalized text changes nothing.
pub normalize_text-normalize_text :
    (s : Text) → normalize_text (normalize_text s) ≡ normalize_text s
unfolding normalize_text
normalize_text-normalize_text s =
    let kept = keep is_kept (line_endings s) in
    let lines = rstrip_lines (split_lines kept) in
    normalize_text-join_lines (drop_trailing (drop_leading lines)) (
      normal_lines lines (
        rstrip_lines-lines (split_lines kept) (split_lines-inner kept (all-keep (line_endings s)))))
