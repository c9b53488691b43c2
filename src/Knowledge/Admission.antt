-- ===== src/Knowledge/Admission.antt =====
-- kb_mcp/ingestion/service.py: the admission of a source to the corpus. The sanitizer that the
-- constructor takes is the argument `KnowledgeSanitizer`. `lower` is str.lower and `encode` str.encode("utf-8"). Messages are
-- left out.
pub mod Payloads
pub mod Texts
pub mod Parsing
pub mod Outcomes
use superoffice_ai_support_m.Common.{
  ℕ, ◌+◌, Bool, true, false, Option, none, some, List, [], ◌∷◌, ◌++◌, map, is_empty, length, Text,
  codes, strip, ltb, Result, ok, err, ◌>>=◌, ◌>>◌, if◌then◌else◌,
}
use superoffice_ai_support_m.Knowledge.Eligibility.{
  AdmissionReasonCode, IngestionSourceKind, CorpusCategory, AdmissionSourceInput, markdown_document,
  text_document, runbook_json, known_issue_json, documentation, sop, runbook, known_issue,
  incident_pattern, empty_content, size_limit_exceeded, pii_detected, format_error,
  invalid_provenance, secret_detected, customer_attachment_detected, source_too_short,
  prohibited_source_classification, evaluate_source,
}
use superoffice_ai_support_m.Knowledge.Normalization.{normalize_text}
use superoffice_ai_support_m.Knowledge.Artifacts.Store.{Bytes, max_canonical_text_bytes}
use superoffice_ai_support_m.Knowledge.Canonical.{category_value, validate_provenance, clean_name}
use superoffice_ai_support_m.Knowledge.Admission.Parsing.{
  Loaders, parse_text, parse_runbook, parse_known_issue,
}
use superoffice_ai_support_m.Knowledge.Admission.Texts.{
  ParsedRunbook, ParsedKnownIssue, kind_value, runbook_canonical, known_issue_canonical,
  normalize_optional,
}
use superoffice_ai_support_m.Knowledge.Admission.Payloads.{
  AdmissionSource, SanitizedText, KnowledgeSanitizer, admitted_document, admitted_runbook,
  admitted_known_issue, AdmissionResult, approved, rejected, failed, model_invalid, AdmissionError,
  content_rejected, size_limit, provenance_invalid, source_format, payload_invalid, reject, invalid,
  Step, concluded,
}

unfoldable pub eligibility_view : AdmissionSource → AdmissionSourceInput
eligibility_view source = record {
  source_name = source.source_name;
  source_kind = kind_value source.source_kind;
  corpus_category = category_value source.corpus_category;
  byte_count = length source.raw_bytes;
  classification = source.classification;
}

-- The scheme of a reference that is made of the name.
abbrev derived_scheme : CorpusCategory → Text
derived_scheme documentation = codes "docs://"
derived_scheme sop = codes "sop://"
derived_scheme _ = codes "incident-pattern://"

-- The bound that the payload model puts on a reference.
abbrev checked_reference : Text → Step Text
checked_reference reference =
    if ltb 128 (length (strip reference)) then err invalid else ok reference

unfoldable pub document_reference_of : AdmissionSource → Step Text
unfolding validate_provenance clean_name
document_reference_of source = elim source.source_reference [
  | some reference ↦ elim (validate_provenance reference source.corpus_category) [
    | ok _ ↦ ok reference
    | err _ ↦ err (reject invalid_provenance 0)
  ]
  | none ↦
      checked_reference (derived_scheme source.corpus_category ++ clean_name source.source_name)
]

-- A field that may be missing; an empty one is not checked either.
abbrev pub or_blank : Option Text → Text
or_blank none = []
or_blank (some value) = value

-- The exception for a reason code.
unfoldable pub raised_for : AdmissionReasonCode → AdmissionError
raised_for secret_detected = content_rejected secret_detected
raised_for pii_detected = content_rejected pii_detected
raised_for customer_attachment_detected = content_rejected customer_attachment_detected
raised_for prohibited_source_classification = content_rejected prohibited_source_classification
raised_for size_limit_exceeded = size_limit
raised_for source_too_short = size_limit
raised_for invalid_provenance = provenance_invalid
raised_for _ = source_format

-- A model trims its texts.
abbrev strip_optional : Option Text → Option Text
strip_optional none = none
strip_optional (some value) = some (strip value)

module _ (lower : Text → Text) (encode : Text → Bytes) (sanitizer : KnowledgeSanitizer)
    (loaders : Loaders) where
  -- The canonical text, if it is small enough.
  unfoldable pub bounded : Text → Step Text
  bounded canonical =
      if ltb max_canonical_text_bytes (length (encode canonical))
      then err (reject size_limit_exceeded 0)
      else ok canonical

  unfoldable pub non_empty : Text → Step Text
  non_empty canonical = if is_empty canonical then err (reject empty_content 0) else ok canonical

  -- A sanitized document, or the rejection with its count.
  abbrev pub checked_document : SanitizedText → Step Text
  checked_document result = elim result.reason_code [
    | some code ↦ err (reject code result.pii_count)
    | none ↦ ok (normalize_text result.sanitized)
  ]

  unfoldable pub admit_document : AdmissionSource → Text → AdmissionResult
  unfolding bounded non_empty document_reference_of
  admit_document source raw_text =
      let result = sanitizer.sanitize_free_text raw_text in
      concluded (do
        normalized ← checked_document result
        present ← non_empty normalized
        canonical ← bounded present
        reference ← document_reference_of source
        ok (
          admitted_document (record {
            source_name = strip source.source_name;
            source_kind = source.source_kind;
            corpus_category = source.corpus_category;
            canonical_text = strip canonical;
            source_reference = strip reference;
          }),
          result.pii_count,
        ))

  -- The first of the fields that holds a secret or PII; empty ones are passed over.
  unfoldable pub check_identity : List Text → Step (Unit {0})
  check_identity [] = ok tt
  check_identity (value ∷ values) =
      let rest = check_identity values in
      if is_empty value then rest else elim (sanitizer.check_identity_field value) [
        | some code ↦ err (reject code 0)
        | none ↦ rest
      ]

  -- The affected products, and then the versions.
  unfoldable pub check_affected : List Text → Step (Unit {0})
  check_affected [] = ok tt
  check_affected (value ∷ values) =
      let rest = check_affected values in
      elim (sanitizer.check_identity_field value) [ some code ↦ err (reject code 0) | none ↦ rest ]

  -- One free text, on top of the redactions so far.
  unfoldable pub sanitize_into : Text → ℕ → Step (Text × ℕ)
  sanitize_into text total =
      let result = sanitizer.sanitize_free_text text in
      elim result.reason_code [
        | some code ↦ err (reject code 0)
        | none ↦ ok (result.sanitized, total + result.pii_count)
      ]

  unfoldable pub sanitize_steps : List Text → ℕ → Step (List Text × ℕ)
  unfolding sanitize_into
  sanitize_steps [] total = ok ([], total)
  sanitize_steps (step ∷ steps) total = do
    (sanitized, total') ← sanitize_into step total
    (rest, count) ← sanitize_steps steps total'
    ok (normalize_text sanitized ∷ rest, count)

  -- if total_pii > 10
  unfoldable pub within_limit : ℕ → Step (Unit {0})
  within_limit total = if ltb 10 total then err (reject pii_detected total) else ok tt

  -- The sanitized parts of a runbook: title, problem, both lists of steps, and the count.
  unfoldable pub sanitize_runbook_content :
      ParsedRunbook → Step (Text × Text × List Text × List Text × ℕ)
  unfolding sanitize_into sanitize_steps within_limit
  sanitize_runbook_content rb = do
    (title, c1) ← sanitize_into rb.title 0
    (problem, c2) ← sanitize_into rb.problem_description c1
    (diag, c3) ← sanitize_steps rb.diagnostic_steps c2
    (remed, total) ← sanitize_steps rb.remediation_steps c3
    within_limit total
    ok (title, problem, diag, remed, total)

  unfoldable pub admit_runbook : AdmissionSource → ParsedRunbook → AdmissionResult
  unfolding check_identity sanitize_runbook_content runbook_canonical bounded
  admit_runbook source rb = concluded (do
    check_identity (
        rb.runbook_id
        ∷ rb.source_reference
        ∷ or_blank rb.product
        ∷ or_blank rb.verified_version
        ∷ [])
    (title, problem, diag, remed, total) ← sanitize_runbook_content rb
    canonical ← bounded (runbook_canonical title problem diag remed rb.product rb.verified_version)
    ok (
      admitted_runbook (record {
        source_name = strip source.source_name;
        runbook_id = strip rb.runbook_id;
        title = strip (normalize_text title);
        problem_description = strip (normalize_text problem);
        diagnostic_steps = map strip diag;
        remediation_steps = map strip remed;
        product = strip_optional (normalize_optional rb.product);
        verified_version = strip_optional (normalize_optional rb.verified_version);
        source_reference = strip rb.source_reference;
        canonical_text = strip canonical;
      }),
      total,
    ))

  unfoldable pub sanitize_workaround : Option Text → ℕ → Step (Option Text × ℕ)
  unfolding sanitize_into
  sanitize_workaround none total = ok (none, total)
  sanitize_workaround (some text) total =
      if is_empty text
      then ok (none, total)
      else (sanitize_into text total >>= λ (sanitized, count).
          ok (some (normalize_text sanitized), count))

  unfoldable pub sanitize_known_issue_content :
      ParsedKnownIssue → Step (Text × Text × Text × Option Text × ℕ)
  unfolding sanitize_into sanitize_workaround within_limit
  sanitize_known_issue_content ki = do
    (title, c1) ← sanitize_into ki.title 0
    (symptom, c2) ← sanitize_into ki.symptom_summary c1
    (root_cause, c3) ← sanitize_into ki.root_cause_summary c2
    (workaround, total) ← sanitize_workaround ki.workaround c3
    within_limit total
    ok (title, symptom, root_cause, workaround, total)

  unfoldable pub admit_known_issue : AdmissionSource → ParsedKnownIssue → AdmissionResult
  unfolding check_identity check_affected sanitize_known_issue_content known_issue_canonical bounded
  admit_known_issue source ki = concluded (do
    check_identity
        (ki.issue_id ∷ ki.source_reference ∷ or_blank ki.permanent_fix_reference ∷ ki.category ∷ [])
    check_affected (ki.affected_products ++ ki.affected_versions)
    (title, symptom, root_cause, workaround, total) ← sanitize_known_issue_content ki
    canonical ← bounded (known_issue_canonical ki title symptom root_cause workaround)
    ok (
      admitted_known_issue (record {
        source_name = strip source.source_name;
        issue_id = strip ki.issue_id;
        title = strip (normalize_text title);
        symptom_summary = strip (normalize_text symptom);
        root_cause_summary = strip (normalize_text root_cause);
        workaround = strip_optional workaround;
        permanent_fix_reference = strip_optional (normalize_optional ki.permanent_fix_reference);
        affected_products = map (λ p. strip (normalize_text p)) ki.affected_products;
        affected_versions = map (λ v. strip (normalize_text v)) ki.affected_versions;
        category = strip (normalize_text ki.category);
        source_reference = strip ki.source_reference;
        canonical_text = strip canonical;
      }),
      total,
    ))

  -- A source that does not parse fails.
  abbrev pub admit_parsed : {A : Type 0} → (A → AdmissionResult) → Option A → AdmissionResult
  admit_parsed next none = failed format_error
  admit_parsed next (some a) = next a

  unfoldable pub parse_and_admit : AdmissionSource → IngestionSourceKind → AdmissionResult
  unfolding admit_document admit_runbook admit_known_issue parse_text parse_runbook
      parse_known_issue
  parse_and_admit source markdown_document =
      admit_parsed (admit_document source) (parse_text loaders source.raw_bytes)
  parse_and_admit source text_document =
      admit_parsed (admit_document source) (parse_text loaders source.raw_bytes)
  parse_and_admit source runbook_json =
      admit_parsed (admit_runbook source) (parse_runbook loaders source.raw_bytes)
  parse_and_admit source known_issue_json =
      admit_parsed (admit_known_issue source) (parse_known_issue loaders source.raw_bytes)

  unfoldable pub admit_source : AdmissionSource → AdmissionResult
  unfolding eligibility_view parse_and_admit
  admit_source source = elim (evaluate_source lower (eligibility_view source)) [
    | some code ↦ rejected code 0
    | none ↦ parse_and_admit source source.source_kind
  ]

  unfoldable pub admit_or_raise : AdmissionSource → Result AdmissionError AdmissionResult
  unfolding admit_source raised_for
  admit_or_raise source = elim (admit_source source) [
    | approved payload count ↦ ok (approved payload count)
    | rejected code count ↦ err (raised_for code)
    | failed code ↦ err (raised_for code)
    | model_invalid ↦ err payload_invalid
  ]
