-- ===== src/Knowledge/Admission/Parsing.antt =====
-- kb_mcp/ingestion/parsers.py. bytes.decode, json.loads and pydantic's typing of a JSON object into
-- trimmed fields are the argument `Loaders`; the bounds and the validators of the two models are
-- here. Every failure is one KnowledgeSourceFormatError, `none`.
use superoffice_ai_support_m.Common.{
  ℕ, Bool, true, not, ◌&&◌, ◌||◌, Option, none, some, List, any, all, length, leb, ◌==◌, Text,
  codes, strip, is_blank, starts_with, if◌then◌else◌,
}
use superoffice_ai_support_m.Knowledge.Artifacts.Store.{Bytes}
use superoffice_ai_support_m.Knowledge.Canonical.{drive_letter, credentials}
use superoffice_ai_support_m.Knowledge.Admission.Texts.{ParsedRunbook, ParsedKnownIssue}

pub record Loaders : Type 0 where
  pub decode_utf8 : Bytes → Option Text
  pub load_runbook : Text → Option ParsedRunbook
  pub load_known_issue : Text → Option ParsedKnownIssue

-- ^[a-zA-Z]:|\\|://[^/\s]+:[^/\s]+@
unfoldable unsafe_ref : Text → Bool
unfolding credentials
unsafe_ref ref = drive_letter ref || any (λ c. c == b'\\') ref || credentials ref

-- min_length and max_length
abbrev within_bounds : {A : Type 0} → ℕ → ℕ → List A → Bool
within_bounds least most xs = leb least (length xs) && leb (length xs) most

abbrev optional_bound : ℕ → Option Text → Bool
optional_bound most none = true
optional_bound most (some value) = leb (length value) most

unfoldable pub validate_steps : List Text → Bool
unfolding is_blank
validate_steps steps = all (λ step. not (is_blank step) && leb (length step) 1000) steps

unfoldable pub validate_source_ref : Text → Text → Bool
unfolding strip starts_with unsafe_ref
validate_source_ref scheme v = starts_with (strip v) scheme && not (unsafe_ref (strip v))

unfoldable pub validate_fix_ref : Option Text → Bool
unfolding strip unsafe_ref
validate_fix_ref none = true
validate_fix_ref (some v) = not (unsafe_ref (strip v))

unfoldable pub valid_runbook : ParsedRunbook → Bool
unfolding validate_steps validate_source_ref
valid_runbook rb =
    within_bounds 1 64 rb.runbook_id
    && within_bounds 1 255 rb.title
    && within_bounds 1 8192 rb.problem_description
    && within_bounds 1 30 rb.diagnostic_steps
    && within_bounds 1 30 rb.remediation_steps
    && validate_steps rb.diagnostic_steps
    && validate_steps rb.remediation_steps
    && within_bounds 1 128 rb.source_reference
    && validate_source_ref (codes "runbook://") rb.source_reference
    && optional_bound 100 rb.product
    && optional_bound 50 rb.verified_version

unfoldable pub valid_known_issue : ParsedKnownIssue → Bool
unfolding validate_source_ref validate_fix_ref
valid_known_issue ki =
    within_bounds 1 64 ki.issue_id
    && within_bounds 1 255 ki.title
    && within_bounds 1 8192 ki.symptom_summary
    && leb (length ki.root_cause_summary) 8192
    && optional_bound 8192 ki.workaround
    && optional_bound 128 ki.permanent_fix_reference
    && validate_fix_ref ki.permanent_fix_reference
    && leb (length ki.affected_products) 20
    && all (λ p. leb (length p) 100) ki.affected_products
    && leb (length ki.affected_versions) 20
    && all (λ v. leb (length v) 50) ki.affected_versions
    && within_bounds 1 50 ki.category
    && within_bounds 1 128 ki.source_reference
    && validate_source_ref (codes "known-issue://") ki.source_reference

-- The fields, if the model accepts them.
unfoldable keep_if {ℓ} : {A : Type ℓ} → (A → Bool) → Option A → Option A
keep_if valid none = none
keep_if valid (some a) = if valid a then some a else none

-- What a text that was decoded is loaded as.
unfoldable loaded : {A : Type 0} → (Text → Option A) → Option Text → Option A
loaded load none = none
loaded load (some text) = load text

-- MarkdownParser.parse and PlainTextParser.parse
unfoldable pub parse_text : Loaders → Bytes → Option Text
unfolding keep_if is_blank
parse_text loaders raw_bytes = keep_if (λ text. not (is_blank text)) (loaders.decode_utf8 raw_bytes)

unfoldable pub parse_runbook : Loaders → Bytes → Option ParsedRunbook
unfolding keep_if loaded valid_runbook
parse_runbook loaders raw_bytes =
    keep_if valid_runbook (loaded loaders.load_runbook (loaders.decode_utf8 raw_bytes))

unfoldable pub parse_known_issue : Loaders → Bytes → Option ParsedKnownIssue
unfolding keep_if loaded valid_known_issue
parse_known_issue loaders raw_bytes =
    keep_if valid_known_issue (loaded loaders.load_known_issue (loaders.decode_utf8 raw_bytes))
