-- ===== src/Examples/Columns.antt =====
-- Runs of so_mcp/extra_tables/validator.py on a small schema.
use superoffice_ai_support_m.Common.{
  drop_newline, ℕ, ◌≡◌, refl, ◌++◌, ◌==◌, true, none, List, [], ◌∷◌, map, length, Text, codes,
  strip, member, text_eq, put, err, All, arith,
}
use superoffice_ai_support_m.Superoffice.Validator.{
  column_not_allowed, validate_table_whitelisted, validate_column, validate_columns_for_table,
  validate_filter_keys, validate_order_by,
}
use superoffice_ai_support_m.Superoffice.Validator.Identifiers.{
  IsIdentifier, IsLower, lower_char, validate_table_whitelisted_sound,
}
use superoffice_ai_support_m.Superoffice.Validator.Columns.{
  IsAllowed, validate_columns_for_table_sound, filters_and_order_sound,
  validate_column-updated_count,
}

-- str.lower on ASCII.
abbrev ascii_lower : Text → Text
ascii_lower s = map lower_char s

lower_char-newline : (c : ℕ) → lower_char c == b'\n' ≡ c == b'\n'
lower_char-newline c = ground arith

drop_newline-ascii_lower : (s : Text) → drop_newline (ascii_lower s) ≡ ascii_lower (drop_newline s)
unfolding drop_newline
drop_newline-ascii_lower [] = refl
drop_newline-ascii_lower (c ∷ []) = ground (arith, lower_char-newline c)
drop_newline-ascii_lower (c ∷ d ∷ s) =
    ground (arith, lower_char-newline c, drop_newline-ascii_lower (d ∷ s))

ascii_lower-IsLower : IsLower ascii_lower
ascii_lower-IsLower = record {
  ascii = λ s h. refl;
  no_newline = λ s h. rw (drop_newline-ascii_lower s, h);
}

abbrev schema : List Text
schema = codes "x_msisdn" ∷ []

validate_table_whitelisted_sound_example :
    (member (codes "y_subscription") (codes "y_subscription" ∷ []) ≡ true)
    × (name : Text) × (codes "y_subscription" ≡ codes "y_" ++ name)
    × IsIdentifier name
unfolding validate_table_whitelisted strip member text_eq
validate_table_whitelisted_sound_example =
    validate_table_whitelisted_sound ascii_lower (codes " Subscription")
      (codes "y_subscription" ∷ []) (codes "y_subscription") ascii_lower-IsLower refl

validate_columns_for_table_sound_example :
    (length (codes "id" ∷ codes "x_msisdn" ∷ []) ≡ length (codes "ID" ∷ codes "x_MSISDN" ∷ []))
    × All (IsAllowed ascii_lower ascii_lower-IsLower schema) (codes "id" ∷ codes "x_msisdn" ∷ [])
unfolding validate_columns_for_table strip member text_eq
validate_columns_for_table_sound_example =
    validate_columns_for_table_sound ascii_lower ascii_lower-IsLower schema
      (codes "ID" ∷ codes "x_MSISDN" ∷ []) (codes "id" ∷ codes "x_msisdn" ∷ []) refl

filters_and_order_sound_example :
    All
      (λ (entry : Text × ℕ). IsAllowed ascii_lower ascii_lower-IsLower schema entry.0)
      ((codes "x_msisdn", 46) ∷ [])
    × IsAllowed ascii_lower ascii_lower-IsLower schema (codes "id")
unfolding validate_filter_keys validate_order_by strip member text_eq put
filters_and_order_sound_example =
    filters_and_order_sound ascii_lower ascii_lower-IsLower {V = ℕ} schema
      ((codes "X_msisdn", 46) ∷ []) ((codes "x_msisdn", 46) ∷ []) none (codes "id") refl refl

validate_column-updated_count_example :
    validate_column ascii_lower schema (codes "updatedCount") ≡ err column_not_allowed
unfolding strip member text_eq
validate_column-updated_count_example =
    validate_column-updated_count ascii_lower ascii_lower-IsLower schema (codes "updatedCount") refl
      refl
