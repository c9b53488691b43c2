-- ===== src/Superoffice/Validator.antt =====
-- so_mcp/extra_tables/validator.py and the standard columns of contracts.py. `lower` is str.lower,
-- whose Unicode table is an argument. A schema is the list of its field names.
pub mod Identifiers
pub mod Columns
use superoffice_ai_support_m.Common.{
  ℕ, Bool, true, false, not, ◌&&◌, ◌||◌, Option, none, some, List, [], ◌∷◌, ◌++◌, map, any, all,
  is_empty, Text, codes, strip, text_eq, member, leb, length, ◌==◌, Dict, put, Result, ok, err,
  ◌>>=◌, if◌then◌else◌, drop_newline, starts_with, contains,
}

abbrev pub superoffice_standard_columns : List Text
superoffice_standard_columns =
    codes "id"
    ∷ codes "registered"
    ∷ codes "registered_associate_id"
    ∷ codes "updated"
    ∷ codes "updated_associate_id"
    ∷ codes "updatedCount"
    ∷ []

abbrev pub forbidden_sql_substrings : List Text
forbidden_sql_substrings =
    codes ";"
    ∷ codes "--"
    ∷ codes "/*"
    ∷ codes "*/"
    ∷ codes "xp_"
    ∷ codes "sp_"
    ∷ codes "sys."
    ∷ codes "sysobjects"
    ∷ codes "information_schema"
    ∷ []

abbrev pub forbidden_sql_keywords : List Text
forbidden_sql_keywords =
    codes "exec"
    ∷ codes "execute"
    ∷ codes "drop"
    ∷ codes "alter"
    ∷ codes "create"
    ∷ codes "truncate"
    ∷ codes "insert"
    ∷ codes "update"
    ∷ codes "delete"
    ∷ codes "union"
    ∷ codes "select"
    ∷ []

pub data TableError : Type 0 where
  empty_name forbidden_token invalid_characters reserved_word not_whitelisted : TableError

pub data ColumnError : Type 0 where
  empty_column column_characters column_token column_reserved column_not_allowed : ColumnError

-- [a-z0-9_]
unfoldable pub is_word_char : ℕ → Bool
is_word_char c = (leb b'a' c && leb c b'z') || (leb b'0' c && leb c b'9') || c == b'_'

-- ^[a-z0-9_]{1,64}$
unfoldable pub matches_identifier : Text → Bool
unfolding is_word_char drop_newline
matches_identifier s =
    let word = drop_newline s in
    all is_word_char word && leb 1 (length word) && leb (length word) 64

-- ^y_[a-z0-9_]{1,64}$
unfoldable pub matches_table_name : Text → Bool
unfolding matches_identifier
matches_table_name [] = false
matches_table_name (c ∷ []) = false
matches_table_name (c ∷ d ∷ s) = c == b'y' && d == b'_' && matches_identifier s

unfoldable pub with_prefix : Text → Text
unfolding starts_with
with_prefix cleaned = if starts_with cleaned (codes "y_") then cleaned else codes "y_" ++ cleaned

module _ (lower : Text → Text) where
  unfoldable pub normalize_table_name : Text → Result TableError Text
  unfolding contains with_prefix matches_table_name
  normalize_table_name table_name =
      let cleaned = lower (strip table_name) in
      let prefixed = with_prefix cleaned in
      if is_empty cleaned
      then err empty_name
      else if any (λ token. contains cleaned token) forbidden_sql_substrings
      then err forbidden_token
      else if not (matches_table_name prefixed)
      then err invalid_characters
      else if member prefixed forbidden_sql_keywords
      then err reserved_word
      else ok prefixed

  unfoldable pub validate_table_whitelisted : Text → List Text → Result TableError Text
  unfolding normalize_table_name
  validate_table_whitelisted table_name whitelist =
      normalize_table_name table_name >>= λ normalized.
      if not (member normalized whitelist) then err not_whitelisted else ok normalized

  unfoldable pub normalize_column_name : Text → Result ColumnError Text
  unfolding contains matches_identifier
  normalize_column_name column_name =
      let cleaned = lower (strip column_name) in
      if is_empty cleaned
      then err empty_column
      else if member cleaned (map lower superoffice_standard_columns)
      then ok cleaned
      else if not (matches_identifier cleaned)
      then err column_characters
      else if any (λ token. contains cleaned token) forbidden_sql_substrings
      then err column_token
      else if member cleaned forbidden_sql_keywords
      then err column_reserved
      else ok cleaned

  unfoldable pub get_allowed_columns_for_table : List Text → List Text
  get_allowed_columns_for_table fields = superoffice_standard_columns ++ map lower fields

  -- One round of the loops: the normalized name of a column that is allowed.
  unfoldable pub validate_column : List Text → Text → Result ColumnError Text
  unfolding normalize_column_name get_allowed_columns_for_table
  validate_column fields column = normalize_column_name column >>= λ normalized.
      if not (member normalized (get_allowed_columns_for_table fields))
      then err column_not_allowed
      else ok normalized

  unfoldable pub validate_columns_for_table : List Text → List Text → Result ColumnError (List Text)
  unfolding validate_column
  validate_columns_for_table fields [] = ok []
  validate_columns_for_table fields (column ∷ columns) = do
    normalized ← validate_column fields column
    rest ← validate_columns_for_table fields columns
    ok (normalized ∷ rest)

  -- From the filters validated so far.
  unfoldable pub validate_filters {ℓ} :
      {V : Type ℓ} → List Text → List (Text × V) → Dict V → Result ColumnError (Dict V)
  unfolding validate_column
  validate_filters fields [] validated = ok validated
  validate_filters fields ((key, value) ∷ filters) validated = elim (validate_column fields key) [
    | err e ↦ err e
    | ok normalized ↦ validate_filters fields filters (put normalized value validated)
  ]

  unfoldable pub validate_filter_keys {ℓ} :
      {V : Type ℓ} → List Text → List (Text × V) → Result ColumnError (Dict V)
  unfolding validate_filters
  validate_filter_keys fields filters = validate_filters fields filters []

  unfoldable pub validate_order_by : List Text → Option Text → Result ColumnError Text
  unfolding validate_column
  validate_order_by fields none = ok (codes "id")
  validate_order_by fields (some order_by) =
      if is_empty order_by then ok (codes "id") else validate_column fields order_by
