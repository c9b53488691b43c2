-- ===== src/Knowledge/Eligibility.antt =====
-- kb_mcp/ingestion/eligibility.py: which sources may enter the corpus. The message is left out; an
-- eligible source has no reason code. `lower` is str.lower, whose Unicode table is an argument, and
-- the raw bytes of a source are counted only.
pub mod Admission
use superoffice_ai_support_m.Common.{
  ℕ, Bool, true, false, ◌&&◌, ◌||◌, Option, none, some, List, [], ◌∷◌, Text, codes, strip, is_empty,
  text_eq, member, any, ltb, ◌==◌, if◌then◌else◌,
}

pub data AdmissionReasonCode : Type 0 where
  customer_attachment_detected prohibited_source_classification invalid_source_name :
      AdmissionReasonCode
  unsupported_source_kind unsupported_category category_mismatch : AdmissionReasonCode
  size_limit_exceeded source_too_short : AdmissionReasonCode
  secret_detected pii_detected format_error schema_violation : AdmissionReasonCode
  invalid_provenance empty_content : AdmissionReasonCode

pub data IngestionSourceKind : Type 0 where
  markdown_document text_document runbook_json known_issue_json : IngestionSourceKind

pub data CorpusCategory : Type 0 where
  documentation sop runbook known_issue incident_pattern : CorpusCategory

pub record AdmissionSourceInput : Type 0 where
  pub source_name : Text
  pub source_kind : Text
  pub corpus_category : Text
  pub byte_count : ℕ
  pub classification : Option Text

abbrev pub max_source_file_bytes : ℕ
max_source_file_bytes = 2097152

abbrev pub min_source_text_bytes : ℕ
min_source_text_bytes = 10

abbrev pub attachment_classifications : List Text
attachment_classifications =
    codes "customer_attachment" ∷ codes "attachment" ∷ codes "customer_attachment" ∷ []

abbrev pub prohibited_classifications : List Text
prohibited_classifications =
    codes "customer_attachment"
    ∷ codes "live_crm"
    ∷ codes "customer_export"
    ∷ codes "raw_ticket_dump"
    ∷ codes "customer_interaction_transcript"
    ∷ []

-- (classification or "")
abbrev or_empty : Option Text → Text
or_empty none = []
or_empty (some classification) = classification

-- `earlier` unless it found nothing.
abbrev pub or_next :
    Option AdmissionReasonCode → Option AdmissionReasonCode → Option AdmissionReasonCode
or_next (some code) next = some code
or_next none next = next

unfoldable pub check_classification : (Text → Text) → Option Text → Option AdmissionReasonCode
check_classification lower classification =
    let cleaned = lower (strip (or_empty classification)) in
    if member cleaned attachment_classifications
    then some customer_attachment_detected
    else if member cleaned prohibited_classifications
    then some prohibited_source_classification
    else none

abbrev starts_unc : Text → Bool
starts_unc (c ∷ d ∷ rest) = c == b'\\' && d == b'\\'
starts_unc _ = false

-- [/\\:]|^\\\\
unfoldable pub path_in_name : Text → Bool
path_in_name name = any (λ c. c == b'/' || c == b'\\' || c == b':') name || starts_unc name

unfoldable pub check_source_name : Text → Option AdmissionReasonCode
unfolding path_in_name
check_source_name source_name =
    let name = strip source_name in
    if is_empty name || path_in_name name then some invalid_source_name else none

unfoldable pub to_source_kind : Text → Option IngestionSourceKind
to_source_kind raw =
    if text_eq raw (codes "markdown_document")
    then some markdown_document
    else if text_eq raw (codes "text_document")
    then some text_document
    else if text_eq raw (codes "runbook_json")
    then some runbook_json
    else if text_eq raw (codes "known_issue_json")
    then some known_issue_json
    else none

unfoldable pub to_category : Text → Option CorpusCategory
to_category raw =
    if text_eq raw (codes "documentation")
    then some documentation
    else if text_eq raw (codes "sop")
    then some sop
    else if text_eq raw (codes "runbook")
    then some runbook
    else if text_eq raw (codes "known_issue")
    then some known_issue
    else if text_eq raw (codes "incident_pattern")
    then some incident_pattern
    else none

abbrev is_runbook : CorpusCategory → Bool
is_runbook runbook = true
is_runbook _ = false

abbrev is_known_issue : CorpusCategory → Bool
is_known_issue known_issue = true
is_known_issue _ = false

unfoldable pub check_alignment : IngestionSourceKind → CorpusCategory → Option AdmissionReasonCode
check_alignment runbook_json category = if is_runbook category then none else some category_mismatch
check_alignment known_issue_json category =
    if is_known_issue category then none else some category_mismatch
check_alignment _ category =
    if is_runbook category || is_known_issue category then some category_mismatch else none

unfoldable pub check_kind_and_category : Text → Text → Option AdmissionReasonCode
unfolding check_alignment to_source_kind to_category
check_kind_and_category source_kind_raw category_raw = elim (to_source_kind source_kind_raw) [
  | none ↦ some unsupported_source_kind
  | some source_kind ↦ elim (to_category category_raw) [
    | none ↦ some unsupported_category
    | some category ↦ check_alignment source_kind category
  ]
]

unfoldable pub check_size : ℕ → Option AdmissionReasonCode
check_size byte_len =
    if ltb max_source_file_bytes byte_len
    then some size_limit_exceeded
    else if ltb byte_len min_source_text_bytes
    then some source_too_short
    else none

-- The first check that finds a reason decides; `none` is an eligible source.
unfoldable pub evaluate_source : (Text → Text) → AdmissionSourceInput → Option AdmissionReasonCode
unfolding check_classification check_source_name check_kind_and_category check_size
evaluate_source lower source_input =
    or_next (check_classification lower source_input.classification) (
      or_next (check_source_name source_input.source_name) (
        or_next (check_kind_and_category source_input.source_kind source_input.corpus_category)
          (check_size source_input.byte_count)))
