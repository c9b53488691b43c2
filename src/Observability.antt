-- ===== src/Observability.antt =====
-- platform_observability/audit.py: the check that the summary of an audit event holds no secret. The
-- error carries the key; its path and the sentence around it are left out. `lower` is str.lower.
pub mod Secrets
use superoffice_ai_support_m.Common.{
  Bool, ◌||◌, List, [], ◌∷◌, ◌++◌, any, Text, codes, strip, member, starts_with, ends_with,
  underscores, Result, ok, err, ◌>>◌, if◌then◌else◌, Json, JsonItems, JsonFields, null, boolean,
  number, text, array, object, end_items, item, end_fields, field,
}

abbrev pub prohibited_audit_keys : List Text
prohibited_audit_keys =
    codes "password"
    ∷ codes "pwd"
    ∷ codes "secret"
    ∷ codes "token"
    ∷ codes "access_token"
    ∷ codes "bearer"
    ∷ codes "api_key"
    ∷ codes "apikey"
    ∷ codes "jwt"
    ∷ codes "authorization"
    ∷ codes "auth"
    ∷ codes "client_secret"
    ∷ codes "private_key"
    ∷ codes "db_password"
    ∷ codes "database_password"
    ∷ codes "connection_string"
    ∷ codes "attachment_content"
    ∷ codes "raw_body"
    ∷ []

module _ (lower : Text → Text) where
  unfoldable pub is_prohibited : Text → Bool
  unfolding strip underscores starts_with ends_with
  is_prohibited key =
      let norm_key = strip (underscores (lower key)) in
      member norm_key prohibited_audit_keys
      || any (λ s. ends_with norm_key (codes "_" ++ s) || starts_with norm_key (s ++ codes "_"))
          prohibited_audit_keys

  -- What stands under a key is looked at only where the key is allowed.
  unfoldable mutual
    pub validate_no_secrets : Json → Result Text (Unit {0})
    validate_no_secrets null = ok tt
    validate_no_secrets (boolean b) = ok tt
    validate_no_secrets (number n) = ok tt
    validate_no_secrets (text t) = ok tt
    validate_no_secrets (array items) = validate_items items
    validate_no_secrets (object fields) = validate_fields fields

    pub validate_items : JsonItems → Result Text (Unit {0})
    validate_items end_items = ok tt
    validate_items (item value items) =
        let rest = validate_items items in validate_no_secrets value >> rest

    pub validate_fields : JsonFields → Result Text (Unit {0})
    validate_fields end_fields = ok tt
    validate_fields (field key value fields) =
        let rest = validate_fields fields in
        let inner = validate_no_secrets value in
        if is_prohibited key then err key else inner >> rest
