-- ===== src/Knowledge/Admission/Payloads.antt =====
-- The data of kb_mcp/ingestion/service.py: the source, the payloads of kb_mcp/contracts/ingestion.py,
-- and what the admission answers.
use superoffice_ai_support_m.Common.{ℕ, Option, List, Text, Result, ok, err}
use superoffice_ai_support_m.Knowledge.Eligibility.{
  AdmissionReasonCode, IngestionSourceKind, CorpusCategory,
}
use superoffice_ai_support_m.Knowledge.Artifacts.Store.{Bytes}

pub record AdmissionSource : Type 0 where
  pub source_name : Text
  pub source_kind : IngestionSourceKind
  pub corpus_category : CorpusCategory
  pub raw_bytes : Bytes
  pub classification : Option Text
  pub source_reference : Option Text

-- What sanitize_free_text returns.
pub record SanitizedText : Type 0 where
  pub sanitized : Text
  pub pii_count : ℕ
  pub reason_code : Option AdmissionReasonCode

pub record KnowledgeSanitizer : Type 0 where
  pub sanitize_free_text : Text → SanitizedText
  pub check_identity_field : Text → Option AdmissionReasonCode

pub record AdmittedDocument : Type 0 where
  pub source_name : Text
  pub source_kind : IngestionSourceKind
  pub corpus_category : CorpusCategory
  pub canonical_text : Text
  pub source_reference : Text

pub record AdmittedRunbook : Type 0 where
  pub source_name : Text
  pub runbook_id : Text
  pub title : Text
  pub problem_description : Text
  pub diagnostic_steps : List Text
  pub remediation_steps : List Text
  pub product : Option Text
  pub verified_version : Option Text
  pub source_reference : Text
  pub canonical_text : Text

pub record AdmittedKnownIssue : Type 0 where
  pub source_name : Text
  pub issue_id : Text
  pub title : Text
  pub symptom_summary : Text
  pub root_cause_summary : Text
  pub workaround : Option Text
  pub permanent_fix_reference : Option Text
  pub affected_products : List Text
  pub affected_versions : List Text
  pub category : Text
  pub source_reference : Text
  pub canonical_text : Text

pub data AdmittedPayload : Type 0 where
  admitted_document : AdmittedDocument → AdmittedPayload
  admitted_runbook : AdmittedRunbook → AdmittedPayload
  admitted_known_issue : AdmittedKnownIssue → AdmittedPayload

-- An AdmissionResult by its decision, with the count of redactions; `model_invalid` where pydantic's
-- ValidationError on the payload leaves admit.
pub data AdmissionResult : Type 0 where
  approved : AdmittedPayload → ℕ → AdmissionResult
  rejected : AdmissionReasonCode → ℕ → AdmissionResult
  failed : AdmissionReasonCode → AdmissionResult
  model_invalid : AdmissionResult

-- What admit_or_raise raises.
pub data AdmissionError : Type 0 where
  content_rejected : AdmissionReasonCode → AdmissionError
  size_limit provenance_invalid source_format payload_invalid : AdmissionError

pub data Stop : Type 0 where
  reject : AdmissionReasonCode → ℕ → Stop
  invalid : Stop

-- The next value, or why there is none.
abbrev pub Step : Type 0 → Type 0
Step A = Result Stop A

abbrev pub concluded : Step (AdmittedPayload × ℕ) → AdmissionResult
concluded (err (reject code count)) = rejected code count
concluded (err invalid) = model_invalid
concluded (ok (payload, count)) = approved payload count
