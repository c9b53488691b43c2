-- ===== src/Superoffice/Validator/Columns.antt =====
-- The columns that so_mcp/extra_tables/validator.py lets into a query.
use superoffice_ai_support_m.Common.{
  ◌≡◌, refl, true, false, ◌&&◌, leb, Option, none, some, List, [], ◌∷◌, map, all, is_empty, Text,
  codes, strip, text_eq, text_eq_iff, member, member-append, length, Dict, put, Result, ok, err,
  >>=-eq-ok, arith, Bool-cases, inl, inr, ◌⊎◌, All,
}
use superoffice_ai_support_m.Superoffice.Validator.{
  superoffice_standard_columns, is_word_char, ColumnError, column_not_allowed,
  normalize_column_name, get_allowed_columns_for_table, validate_column, validate_columns_for_table,
  validate_filters, validate_filter_keys, validate_order_by,
}
use superoffice_ai_support_m.Superoffice.Validator.Identifiers.{
  IsIdentifier, IsLower, drop_newline-strip, matches_identifier_sound,
}

member-All :
    (P : Text → Type 0) (name : Text) (names : List Text)
    → All P names
    → member name names ≡ true
    → P name
unfolding member
member-All P name [] h m = cc
member-All P name (n ∷ names) h m = elim (Bool-cases (text_eq name n)) [
  | inl e ↦ rw ((text_eq_iff name n).0 e) h.0
  | inr e ↦ member-All P name names h.1 (rw e at m)
]

-- The standard columns in lower case.
abbrev lowered_columns : List Text
lowered_columns =
    codes "id"
    ∷ codes "registered"
    ∷ codes "registered_associate_id"
    ∷ codes "updated"
    ∷ codes "updated_associate_id"
    ∷ codes "updatedcount"
    ∷ []

short_word :
    (name : Text)
    → all is_word_char name ≡ true
    → (leb 1 (length name) && leb (length name) 64) ≡ true
    → IsIdentifier name
short_word name word size = record { word = word; some_char = ground arith; short = ground arith }

lowered_columns-IsIdentifier : All IsIdentifier lowered_columns
unfolding is_word_char
lowered_columns-IsIdentifier = (
  short_word (codes "id") refl refl,
  (
    short_word (codes "registered") refl refl,
    (
      short_word (codes "registered_associate_id") refl refl,
      (
        short_word (codes "updated") refl refl,
        (
          short_word (codes "updated_associate_id") refl refl,
          (short_word (codes "updatedcount") refl refl, tt),
        ),
      ),
    ),
  ),
)

module _ (lower : Text → Text) (low : IsLower lower) where
  lower_standard : map lower superoffice_standard_columns ≡ lowered_columns
  lower_standard = rw (
    low.ascii (codes "id") refl,
    low.ascii (codes "registered") refl,
    low.ascii (codes "registered_associate_id") refl,
    low.ascii (codes "updated") refl,
    low.ascii (codes "updated_associate_id") refl,
    low.ascii (codes "updatedCount") refl,
  )

  normalize_column_name_sound :
      (column normalized : Text)
      → normalize_column_name lower column ≡ ok normalized
      → IsIdentifier normalized
  unfolding normalize_column_name
  normalize_column_name_sound column normalized h =
      let cleaned = lower (strip column) in
      let eq : cleaned ≡ normalized = ground arith in
      rw (← eq) (elim (Bool-cases (member cleaned (map lower superoffice_standard_columns))) [
        | inl standard ↦
            member-All IsIdentifier cleaned lowered_columns lowered_columns-IsIdentifier
              (rw lower_standard at standard)
        | inr own ↦
            matches_identifier_sound cleaned
              (low.no_newline (strip column) (drop_newline-strip column)) (ground arith)
      ])

  -- A column that may stand in a query to a table with these fields.
  abbrev pub IsAllowed : List Text → Text → Type 0
  IsAllowed fields name =
      (member name (get_allowed_columns_for_table lower fields) ≡ true) × IsIdentifier name

  validate_column_sound :
      (fields : List Text) (column normalized : Text)
      → validate_column lower fields column ≡ ok normalized
      → IsAllowed fields normalized
  unfolding validate_column
  validate_column_sound fields column normalized h =
      let (name, e, f) = >>=-eq-ok (normalize_column_name lower column) _ h in
      let same : name ≡ normalized = ground arith in
      (ground arith, rw same at (normalize_column_name_sound column name e))

  -- If a list of columns is accepted, the result has as many names, and each is one of the
  -- standard columns or of the table's fields in lower case, and an identifier.
  pub validate_columns_for_table_sound :
      (fields columns names : List Text)
      → validate_columns_for_table lower fields columns ≡ ok names
      → (length names ≡ length columns) × All (IsAllowed fields) names
  unfolding validate_columns_for_table
  validate_columns_for_table_sound fields [] names h =
      let e : [] ≡ names = cc in rw (← e) (refl, tt)
  validate_columns_for_table_sound fields (column ∷ columns) names h =
      let (name, e, f) = >>=-eq-ok (validate_column lower fields column) _ h in
      let (rest, g, k) = >>=-eq-ok (validate_columns_for_table lower fields columns) _ f in
      let same : name ∷ rest ≡ names = cc in
      let (count, allowed) = validate_columns_for_table_sound fields columns rest g in
      rw (← same) (omega (arith, count), (validate_column_sound fields column name e, allowed))

  All-put :
      {V : Type 0} (P : Text → Type 0) (key : Text) (value : V) (d : Dict V)
      → P key
      → All (λ (entry : Text × V). P entry.0) d
      → All (λ (entry : Text × V). P entry.0) (put key value d)
  unfolding put
  All-put P key value [] p h = (p, tt)
  All-put P key value ((j, w) ∷ d) p h = elim (Bool-cases (text_eq j key)) [
    | inl e ↦ rw e h
    | inr e ↦ rw e (h.0, All-put P key value d p h.1)
  ]

  validate_filters_sound :
      {V : Type 0} (fields : List Text) (filters : List (Text × V)) (before after : Dict V)
      → All (λ (entry : Text × V). IsAllowed fields entry.0) before
      → validate_filters lower fields filters before ≡ ok after
      → All (λ (entry : Text × V). IsAllowed fields entry.0) after
  unfolding validate_filters
  validate_filters_sound fields [] before after h e = let f : before ≡ after = cc in rw (← f) h
  validate_filters_sound fields ((key, value) ∷ filters) before after h e =
      elim (Result-cases (validate_column lower fields key)) [
        | inl (error, f) ↦ cc (f)
        | inr (name, f) ↦
            validate_filters_sound fields filters (put name value before) after
              (All-put (IsAllowed fields) name value before
                (validate_column_sound fields key name f) h)
              (rw (f, validate_filters) at e)
      ]
    where
      Result-cases :
          (r : Result ColumnError Text)
          → ((e : ColumnError) × (r ≡ err e)) ⊎ ((name : Text) × (r ≡ ok name))
      Result-cases (err e) = inl (e, refl)
      Result-cases (ok name) = inr (name, refl)

  -- Every key of a filter dict that is accepted, and every column to order by, is one of the
  -- standard columns or of the table's fields in lower case, and an identifier; this holds of the
  -- default order too.
  pub filters_and_order_sound :
      {V : Type 0} (fields : List Text) (filters : List (Text × V)) (validated : Dict V)
      (order_by : Option Text) (column : Text)
      → validate_filter_keys lower fields filters ≡ ok validated
      → validate_order_by lower fields order_by ≡ ok column
      → All (λ (entry : Text × V). IsAllowed fields entry.0) validated × IsAllowed fields column
  unfolding validate_filter_keys
  filters_and_order_sound fields filters validated order_by column h k =
      (validate_filters_sound fields filters [] validated tt h, order_sound order_by k)
    where
      default_allowed : IsAllowed fields (codes "id")
      default_allowed = (
        unfold get_allowed_columns_for_table member text_eq in refl,
        lowered_columns-IsIdentifier.0,
      )

      order_sound :
          (o : Option Text) → validate_order_by lower fields o ≡ ok column → IsAllowed fields column
      order_sound none e =
          let f : codes "id" ≡ column = unfold validate_order_by in cc in rw (← f) default_allowed
      order_sound (some o) e = elim (Bool-cases (is_empty o)) [
        | inl empty ↦
            let f : codes "id" ≡ column = unfold validate_order_by in ground arith in
            rw (← f) default_allowed
        | inr filled ↦
            validate_column_sound fields o column (unfold validate_order_by in rw filled at e)
      ]

  normalize-updated_count :
      (column : Text)
      → lower (strip column) ≡ codes "updatedcount"
      → normalize_column_name lower column ≡ ok (codes "updatedcount")
  unfolding normalize_column_name
  normalize-updated_count column e = rw (e, lower_standard) (unfold member text_eq in refl)

  allowed-updated_count :
      (fields : List Text)
      → member (codes "updatedcount") (map lower fields) ≡ false
      → member (codes "updatedcount") (get_allowed_columns_for_table lower fields) ≡ false
  allowed-updated_count fields absent =
      unfold get_allowed_columns_for_table in
      rw
        (
          member-append (codes "updatedcount") superoffice_standard_columns (map lower fields),
          absent,
        )
        (unfold member text_eq in refl)

  -- The standard column updatedCount is never accepted: a column that reads updatedcount in lower
  -- case is rejected as not allowed for every table that has no field of that name, since the
  -- whitelist holds the standard name with its capital letter.
  pub validate_column-updated_count :
      (fields : List Text) (column : Text)
      → lower (strip column) ≡ codes "updatedcount"
      → member (codes "updatedcount") (map lower fields) ≡ false
      → validate_column lower fields column ≡ err column_not_allowed
  unfolding validate_column
  validate_column-updated_count fields column e absent =
      rw (normalize-updated_count column e, allowed-updated_count fields absent)
