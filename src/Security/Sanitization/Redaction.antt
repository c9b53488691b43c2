-- ===== src/Security/Sanitization/Redaction.antt =====
-- What platform_security/sanitization.py leaves in a result.
use superoffice_ai_support_m.Common.{
  ◌≡◌, refl, Text, if◌then◌else◌, Bool-cases, inl, inr, Json, JsonItems, JsonFields, null, boolean,
  number, text, array, object, end_items, item, end_fields, field,
}
use superoffice_ai_support_m.Security.Sanitization.{
  mask, is_sensitive, sanitize, sanitize_items, sanitize_fields,
}

module _ (lower : Text → Text) (redact : Text → Text) where
  -- At every depth the value of a sensitive key is the mask, and any other text came out of the
  -- filter.
  abbrev mutual
    pub IsRedacted : Json → Type 0
    IsRedacted null = Unit
    IsRedacted (boolean b) = Unit
    IsRedacted (number n) = Unit
    IsRedacted (text t) = (s : Text) × (t ≡ redact s)
    IsRedacted (array items) = AreRedacted items
    IsRedacted (object fields) = HasRedacted fields

    pub AreRedacted : JsonItems → Type 0
    AreRedacted end_items = Unit
    AreRedacted (item value items) = IsRedacted value × AreRedacted items

    pub HasRedacted : JsonFields → Type 0
    HasRedacted end_fields = Unit
    HasRedacted (field key value fields) =
        (if is_sensitive lower key then (value ≡ mask) else IsRedacted value) × HasRedacted fields

  mutual
    unfolding sanitize

    pub sanitize_lem : (value : Json) → IsRedacted (sanitize lower redact value)
    sanitize_lem null = tt
    sanitize_lem (boolean b) = tt
    sanitize_lem (number n) = tt
    sanitize_lem (text t) = (t, refl)
    sanitize_lem (array items) = sanitize_items_lem items
    sanitize_lem (object fields) = sanitize_fields_lem fields

    sanitize_items_lem : (items : JsonItems) → AreRedacted (sanitize_items lower redact items)
    sanitize_items_lem end_items = tt
    sanitize_items_lem (item value items) = (sanitize_lem value, sanitize_items_lem items)

    sanitize_fields_lem : (fields : JsonFields) → HasRedacted (sanitize_fields lower redact fields)
    sanitize_fields_lem end_fields = tt
    sanitize_fields_lem (field key value fields) = (
      elim (Bool-cases (is_sensitive lower key)) [
        | inl secret ↦ rw secret refl
        | inr plain ↦ rw plain (sanitize_lem value)
      ],
      sanitize_fields_lem fields,
    )
