-- ===== src/Security/Sanitization.antt =====
-- platform_security/sanitization.py: the recursive sanitizer of results. The filter of texts that
-- its constructor is given is the argument `redact`, from a text to the sanitized text; `lower` is
-- str.lower. A key is a str, and an object's keys are distinct.
pub mod Redaction
use superoffice_ai_support_m.Common.{
  Bool, ◌||◌, List, [], ◌∷◌, ◌++◌, any, Text, codes, strip, member, ends_with, underscores,
  if◌then◌else◌, Json, JsonItems, JsonFields, null, boolean, number, text, array, object, end_items,
  item, end_fields, field,
}

abbrev pub sensitive_key_patterns : List Text
sensitive_key_patterns =
    codes "password"
    ∷ codes "pwd"
    ∷ codes "secret"
    ∷ codes "client_secret"
    ∷ codes "api_key"
    ∷ codes "apikey"
    ∷ codes "token"
    ∷ codes "access_token"
    ∷ codes "refresh_token"
    ∷ codes "auth_token"
    ∷ codes "jwt"
    ∷ codes "authorization"
    ∷ codes "private_key"
    ∷ codes "privatekey"
    ∷ codes "db_password"
    ∷ codes "database_password"
    ∷ codes "service_key"
    ∷ []

abbrev pub mask : Json
mask = text (codes "[REDACTED_SECRET]")

module _ (lower : Text → Text) where
  unfoldable pub is_sensitive : Text → Bool
  unfolding strip underscores ends_with
  is_sensitive key =
      let norm_key = strip (underscores (lower key)) in
      member norm_key sensitive_key_patterns
      || any (λ s. ends_with norm_key (codes "_" ++ s)) sensitive_key_patterns

  module _ (redact : Text → Text) where
    unfoldable mutual
      pub sanitize : Json → Json
      sanitize null = null
      sanitize (boolean b) = boolean b
      sanitize (number n) = number n
      sanitize (text t) = text (redact t)
      sanitize (array items) = array (sanitize_items items)
      sanitize (object fields) = object (sanitize_fields fields)

      pub sanitize_items : JsonItems → JsonItems
      sanitize_items end_items = end_items
      sanitize_items (item value items) = item (sanitize value) (sanitize_items items)

      pub sanitize_fields : JsonFields → JsonFields
      sanitize_fields end_fields = end_fields
      sanitize_fields (field key value fields) =
          let inner = sanitize value in
          field key (if is_sensitive key then mask else inner) (sanitize_fields fields)
