-- ===== src/Superoffice/Validator/Identifiers.antt =====
-- The names that so_mcp/extra_tables/validator.py lets into a query text.
use superoffice_ai_support_m.Common.{
  starts_with, drop_newline, ℕ, ◌+◌, ◌≤◌, ◌≡◌, refl, sym, ◌∙◌, true, false, ◌&&◌, List, [], ◌∷◌,
  ◌++◌, map, all, is_empty, Text, codes, strip, lstrip, rstrip, is_space, member, leb, length, ok,
  if◌then◌else◌, arith, Bool-cases, inl, inr, >>=-eq-ok,
}
use superoffice_ai_support_m.Superoffice.Validator.{
  is_word_char, matches_identifier, matches_table_name, with_prefix, normalize_table_name,
  validate_table_whitelisted,
}

-- A name of 1 to 64 characters, each a lower-case letter, a digit or an underscore.
pub record IsIdentifier (name : Text) : Type 0 where
  pub word : all is_word_char name ≡ true
  pub some_char : 1 ≤ length name
  pub short : length name ≤ 64

abbrev pub lower_char : ℕ → ℕ
lower_char c = if leb b'A' c && leb c b'Z' then c + 32 else c

-- What is relied on of str.lower: what it does to ASCII, and that it makes no newline at the end.
pub record IsLower (lower : Text → Text) : Type 0 where
  pub ascii : (s : Text) → all (λ c. leb c 127) s ≡ true → lower s ≡ map lower_char s
  pub no_newline : (s : Text) → drop_newline s ≡ s → drop_newline (lower s) ≡ lower s

drop_newline-rstrip : (s : Text) → drop_newline (rstrip s) ≡ rstrip s
unfolding drop_newline rstrip is_space
drop_newline-rstrip [] = refl
drop_newline-rstrip (c ∷ s) = ground (arith, drop_newline-rstrip s)

pub drop_newline-strip : (s : Text) → drop_newline (strip s) ≡ strip s
unfolding strip
drop_newline-strip s = drop_newline-rstrip (lstrip s)

pub matches_identifier_sound :
    (s : Text) → drop_newline s ≡ s → matches_identifier s ≡ true → IsIdentifier s
unfolding matches_identifier
matches_identifier_sound s whole h =
    let k = rw whole at h in
    record { word = ground arith; some_char = ground arith; short = ground arith }

drop_newline-tail :
    (c : ℕ) (s : Text) → 1 ≤ length s → drop_newline (c ∷ s) ≡ c ∷ s → drop_newline s ≡ s
unfolding drop_newline
drop_newline-tail c [] le h = absurd (omega arith)
drop_newline-tail c (d ∷ s) le h = cc

drop_newline-with_prefix :
    (s : Text)
    → is_empty s ≡ false
    → drop_newline s ≡ s
    → drop_newline (with_prefix s) ≡ with_prefix s
unfolding with_prefix drop_newline
drop_newline-with_prefix [] h whole = cc
drop_newline-with_prefix (c ∷ s) h whole = elim (Bool-cases (starts_with (c ∷ s) (codes "y_"))) [
  | inl e ↦ rw e whole
  | inr e ↦ rw (e, whole)
]

-- A text that matches the table pattern, and that a newline does not end.
matches_table_name_sound :
    (s : Text)
    → drop_newline s ≡ s
    → matches_table_name s ≡ true
    → (name : Text) × (s ≡ codes "y_" ++ name) × IsIdentifier name
unfolding matches_table_name
matches_table_name_sound [] whole h = cc
matches_table_name_sound (c ∷ []) whole h = cc
matches_table_name_sound (c ∷ d ∷ s) whole h =
    let first : c ≡ b'y' = ground arith in
    let second : d ≡ b'_' = ground arith in
    let inner = drop_newline-tail c (d ∷ s) (omega arith) whole in
    (s, rw (first, second), tail s second inner (ground arith))
  where
    tail :
        (s : Text)
        → d ≡ b'_'
        → drop_newline (d ∷ s) ≡ d ∷ s
        → matches_identifier s ≡ true
        → IsIdentifier s
    tail [] e inner m = matches_identifier_sound [] (unfold drop_newline in refl) m
    tail (x ∷ s) e inner m =
        matches_identifier_sound (x ∷ s) (drop_newline-tail d (x ∷ s) (omega arith) inner) m

normalize_table_name_sound :
    (lower : Text → Text) (table_name r : Text)
    → IsLower lower
    → normalize_table_name lower table_name ≡ ok r
    → (name : Text) × (r ≡ codes "y_" ++ name) × IsIdentifier name
unfolding normalize_table_name
normalize_table_name_sound lower table_name r low e =
    let cleaned = lower (strip table_name) in
    let filled : is_empty cleaned ≡ false = ground arith in
    let matched : matches_table_name (with_prefix cleaned) ≡ true = ground arith in
    let eq : with_prefix cleaned ≡ r = ground arith in
    rw eq at (
      matches_table_name_sound (with_prefix cleaned)
        (drop_newline-with_prefix cleaned filled
          (low.no_newline (strip table_name) (drop_newline-strip table_name)))
        matched)

-- A table name that is accepted is in the whitelist, and is y_ followed by 1 to 64 characters that
-- are lower-case letters, digits or underscores, if str.lower is as IsLower says.
pub validate_table_whitelisted_sound :
    (lower : Text → Text) (table_name : Text) (whitelist : List Text) (accepted : Text)
    → IsLower lower
    → validate_table_whitelisted lower table_name whitelist ≡ ok accepted
    → (member accepted whitelist ≡ true)
      × (name : Text) × (accepted ≡ codes "y_" ++ name)
      × IsIdentifier name
unfolding validate_table_whitelisted
validate_table_whitelisted_sound lower table_name whitelist accepted low h =
    let (normalized, e, f) = >>=-eq-ok (normalize_table_name lower table_name) _ h in
    let same : normalized ≡ accepted = ground arith in
    let (name, prefixed, safe) = normalize_table_name_sound lower table_name normalized low e in
    (ground arith, name, sym same ∙ prefixed, safe)
