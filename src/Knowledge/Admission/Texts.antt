-- ===== src/Knowledge/Admission/Texts.antt =====
-- The parsed models of kb_mcp/ingestion/parsers.py, and the canonical texts that
-- kb_mcp/ingestion/service.py makes of them.
use superoffice_ai_support_m.Common.{
  ℕ, zero, suc, ◌+◌, ◌/◌, ◌%◌, Option, none, some, List, [], ◌∷◌, ◌++◌, map, is_empty, Text, codes,
  ltb, if◌then◌else◌,
}
use superoffice_ai_support_m.Knowledge.Eligibility.{
  IngestionSourceKind, markdown_document, text_document, runbook_json, known_issue_json,
}
use superoffice_ai_support_m.Knowledge.Normalization.{normalize_text, join_lines}

-- The review time is carried through and left out.
pub record ParsedRunbook : Type 0 where
  pub runbook_id : Text
  pub title : Text
  pub problem_description : Text
  pub diagnostic_steps : List Text
  pub remediation_steps : List Text
  pub source_reference : Text
  pub product : Option Text
  pub verified_version : Option Text

pub record ParsedKnownIssue : Type 0 where
  pub issue_id : Text
  pub title : Text
  pub symptom_summary : Text
  pub root_cause_summary : Text
  pub workaround : Option Text
  pub permanent_fix_reference : Option Text
  pub affected_products : List Text
  pub affected_versions : List Text
  pub category : Text
  pub source_reference : Text

-- IngestionSourceKind.value
abbrev pub kind_value : IngestionSourceKind → Text
kind_value markdown_document = codes "markdown_document"
kind_value text_document = codes "text_document"
kind_value runbook_json = codes "runbook_json"
kind_value known_issue_json = codes "known_issue_json"

-- The decimal digits of a number, with as much fuel as the number.
decimal_digits : ℕ → ℕ → Text
decimal_digits zero n = (b'0' + n % 10) ∷ []
decimal_digits (suc fuel) n =
    let rest = decimal_digits fuel (n / 10) in
    if ltb n 10 then (b'0' + n) ∷ [] else rest ++ (b'0' + n % 10) ∷ []

-- str(n) for n from 1 on
unfoldable decimal : ℕ → Text
unfolding decimal_digits
decimal n = decimal_digits n n

-- f"{i}. {step}" for the steps from i on
unfoldable numbered_steps : ℕ → List Text → List Text
unfolding decimal
numbered_steps i [] = []
numbered_steps i (step ∷ steps) = (decimal i ++ codes ". " ++ step) ∷ numbered_steps (suc i) steps

-- A line with a label, where there is a text that is not empty.
abbrev labelled_line : Text → Option Text → List Text
labelled_line label none = []
labelled_line label (some text) = if is_empty text then [] else (label ++ normalize_text text) ∷ []

-- A line with a label and a text that is normal already.
abbrev labelled_as_is : Text → Option Text → List Text
labelled_as_is label none = []
labelled_as_is label (some text) = if is_empty text then [] else (label ++ text) ∷ []

unfoldable join_commas : List Text → Text
join_commas [] = []
join_commas (t ∷ []) = t
join_commas (t ∷ u ∷ texts) = t ++ codes ", " ++ join_commas (u ∷ texts)

unfoldable labelled_list : Text → List Text → List Text
unfolding join_commas
labelled_list label [] = []
labelled_list label (t ∷ texts) = (label ++ join_commas (map normalize_text (t ∷ texts))) ∷ []

-- normalize_text(text) if text else None
abbrev pub normalize_optional : Option Text → Option Text
normalize_optional none = none
normalize_optional (some text) = if is_empty text then none else some (normalize_text text)

-- _build_runbook_canonical
unfoldable pub runbook_canonical :
    Text → Text → List Text → List Text → Option Text → Option Text → Text
unfolding numbered_steps normalize_text join_lines
runbook_canonical title problem diag_steps remed_steps product verified_version = normalize_text (
    join_lines (
      (codes "Title: " ++ normalize_text title)
      ∷ (codes "Problem: " ++ normalize_text problem)
      ∷ (labelled_line (codes "Product: ") product
          ++ (labelled_line (codes "Verified Version: ") verified_version
              ++ (codes "Diagnostic Steps:"
                  ∷ (numbered_steps 1 diag_steps
                      ++ (codes "Remediation Steps:" ∷ numbered_steps 1 remed_steps)))))))

-- _build_known_issue_canonical
unfoldable pub known_issue_canonical : ParsedKnownIssue → Text → Text → Text → Option Text → Text
unfolding labelled_list normalize_text join_lines
known_issue_canonical issue title symptom root_cause workaround = normalize_text (
    join_lines (
      (codes "Title: " ++ normalize_text title)
      ∷ (codes "Symptom: " ++ normalize_text symptom)
      ∷ (labelled_line (codes "Root Cause: ") (some root_cause)
          ++ (labelled_as_is (codes "Workaround: ") workaround
              ++ (labelled_line (codes "Permanent Fix: ") issue.permanent_fix_reference
                  ++ (labelled_list (codes "Affected Products: ") issue.affected_products
                      ++ (labelled_list (codes "Affected Versions: ") issue.affected_versions
                          ++ ((codes "Category: " ++ normalize_text issue.category) ∷ []))))))))
