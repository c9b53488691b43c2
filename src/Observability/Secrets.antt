-- ===== src/Observability/Secrets.antt =====
-- What passes the check of platform_observability/audit.py.
use superoffice_ai_support_m.Common.{
  ◌≡◌, refl, ◌↔◌, Bool, true, false, List, [], ◌∷◌, ◌++◌, all, not, all-append, Text, Result, ok,
  err, ◌>>◌, ◌&&◌, Bool-cases, inl, inr, Json, JsonItems, JsonFields, null, boolean, number, text,
  array, object, end_items, item, end_fields, field,
}
use superoffice_ai_support_m.Observability.{
  is_prohibited, validate_no_secrets, validate_items, validate_fields,
}

-- The keys of all objects in a value, at every depth.
unfoldable mutual
  pub keys_of : Json → List Text
  keys_of null = []
  keys_of (boolean b) = []
  keys_of (number n) = []
  keys_of (text t) = []
  keys_of (array items) = item_keys items
  keys_of (object fields) = field_keys fields

  item_keys : JsonItems → List Text
  item_keys end_items = []
  item_keys (item value items) = keys_of value ++ item_keys items

  field_keys : JsonFields → List Text
  field_keys end_fields = []
  field_keys (field key value fields) = key ∷ (keys_of value ++ field_keys fields)

passes : Result Text (Unit {0}) → Bool
passes (err key) = false
passes (ok tt) = true

passes->> :
    (check rest : Result Text (Unit {0})) → passes (check >> rest) ≡ (passes check && passes rest)
unfolding passes
passes->> (err key) rest = refl
passes->> (ok tt) rest = refl

module _ (lower : Text → Text) where
  abbrev allowed : Text → Bool
  allowed key = not (is_prohibited lower key)

  mutual
    unfolding validate_no_secrets keys_of passes

    passes-validate_no_secrets :
        (value : Json) → passes (validate_no_secrets lower value) ≡ all allowed (keys_of value)
    passes-validate_no_secrets null = refl
    passes-validate_no_secrets (boolean b) = refl
    passes-validate_no_secrets (number n) = refl
    passes-validate_no_secrets (text t) = refl
    passes-validate_no_secrets (array items) = passes-validate_items items
    passes-validate_no_secrets (object fields) = passes-validate_fields fields

    passes-validate_items :
        (items : JsonItems) → passes (validate_items lower items) ≡ all allowed (item_keys items)
    passes-validate_items end_items = refl
    passes-validate_items (item value items) =
        rw
          (
            passes->> (validate_no_secrets lower value) (validate_items lower items),
            all-append allowed (keys_of value) (item_keys items),
            passes-validate_no_secrets value,
            passes-validate_items items,
          )
          refl

    passes-validate_fields :
        (fields : JsonFields)
        → passes (validate_fields lower fields) ≡ all allowed (field_keys fields)
    passes-validate_fields end_fields = refl
    passes-validate_fields (field key value fields) = elim (Bool-cases (is_prohibited lower key)) [
      | inl secret ↦ rw (secret) refl
      | inr plain ↦
          rw
            (
              plain,
              passes->> (validate_no_secrets lower value) (validate_fields lower fields),
              all-append allowed (keys_of value) (field_keys fields),
              passes-validate_no_secrets value,
              passes-validate_fields fields,
            )
            refl
    ]

  passes_iff : (check : Result Text (Unit {0})) → (passes check ≡ true) ↔ (check ≡ ok tt)
  unfolding passes
  passes_iff (err key) = ((λ h. cc h), (λ h. cc h))
  passes_iff (ok tt) = ((λ h. refl), (λ h. refl))

  -- The check of an audit summary passes exactly when no key of any object in it, at any
  -- depth, is prohibited.
  pub validate_no_secrets_iff :
      (value : Json)
      → (validate_no_secrets lower value ≡ ok tt)
        ↔ (all (λ key. not (is_prohibited lower key)) (keys_of value) ≡ true)
  validate_no_secrets_iff value =
      let (to, from) = passes_iff (validate_no_secrets lower value) in
      (
        (λ h. rw (passes-validate_no_secrets value) at (from h)),
        (λ h. to (rw (passes-validate_no_secrets value) h)),
      )
