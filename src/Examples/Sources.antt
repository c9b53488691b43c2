-- ===== src/Examples/Sources.antt =====
-- A chunker and a source of kb_mcp/ingestion.
use superoffice_ai_support_m.Common.{some, Text, ◌≡◌, refl, ◌↔◌, none, codes, arith}
use superoffice_ai_support_m.Knowledge.Chunking.{DeterministicChunker, new_chunker, token_windows}
use superoffice_ai_support_m.Knowledge.Chunking.Windows.{Tiles, token_windows-Tiles}
use superoffice_ai_support_m.Knowledge.Eligibility.{
  AdmissionSourceInput, evaluate_source, markdown_document, documentation,
}
use superoffice_ai_support_m.Knowledge.Admission.Parsing.{Loaders}
use superoffice_ai_support_m.Knowledge.Admission.Payloads.{
  AdmissionSource, KnowledgeSanitizer, AdmittedPayload, admitted_document,
}
use superoffice_ai_support_m.Knowledge.Admission.{eligibility_view, admit_source}
use superoffice_ai_support_m.Knowledge.Admission.Outcomes.{
  IsMeasured, IsCounted, canonical_of, admit_approved,
}
use superoffice_ai_support_m.Knowledge.Eligibility.Admission.{IsAdmissible, evaluate_source_iff}

abbrev small_chunker : DeterministicChunker
small_chunker = record { target_tokens = 4; max_tokens = 6; overlap_tokens = 1; max_chunks = 9 }

token_windows-Tiles_example : Tiles small_chunker 10 0 (token_windows small_chunker 10 10 0)
unfolding new_chunker
token_windows-Tiles_example = token_windows-Tiles small_chunker 10 refl (omega arith)

abbrev manual : AdmissionSourceInput
manual = record {
  source_name = codes "manual.md";
  source_kind = codes "markdown_document";
  corpus_category = codes "documentation";
  byte_count = 4000;
  classification = none;
}

evaluate_source_iff_example :
    (evaluate_source (λ s. s) manual ≡ none) ↔ IsAdmissible (λ s. s) manual
evaluate_source_iff_example = evaluate_source_iff (λ s. s) manual

abbrev page : Text
page = codes "# Printing\n\nOpen the document, choose Print and select the printer.  \n"

abbrev printing : AdmissionSource
printing = record {
  source_name = codes "printing.md";
  source_kind = markdown_document;
  corpus_category = documentation;
  raw_bytes = page;
  classification = none;
  source_reference = none;
}

-- Nothing to redact.
abbrev lenient : KnowledgeSanitizer
lenient = record {
  sanitize_free_text = λ text. record { sanitized = text; pii_count = 0; reason_code = none };
  check_identity_field = λ value. none;
}

-- Bytes that are code points.
abbrev plain_loaders : Loaders
plain_loaders = record {
  decode_utf8 = some;
  load_runbook = λ text. none;
  load_known_issue = λ text. none;
}

abbrev printing_payload : AdmittedPayload
printing_payload = admitted_document (record {
  source_name = codes "printing.md";
  source_kind = markdown_document;
  corpus_category = documentation;
  canonical_text = codes "# Printing\n\nOpen the document, choose Print and select the printer.";
  source_reference = codes "docs://printing";
})

admit_approved_example :
    (evaluate_source (λ s. s) (eligibility_view printing) ≡ none)
    × IsMeasured (λ s. s) (λ s. s) lenient plain_loaders (canonical_of printing_payload)
    × IsCounted printing_payload 0
unfolding admit_source evaluate_source superoffice_ai_support_m.Common.member
    superoffice_ai_support_m.Common.text_eq
admit_approved_example =
    admit_approved (λ s. s) (λ s. s) lenient plain_loaders printing printing_payload 0 refl
