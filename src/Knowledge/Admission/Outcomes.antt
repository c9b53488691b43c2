-- ===== src/Knowledge/Admission/Outcomes.antt =====
-- What kb_mcp/ingestion/service.py lets into the corpus.
use superoffice_ai_support_m.Common.{
  ℕ, ◌≡◌, refl, sym, ◌≤◌, Option, none, some, List, [], ◌∷◌, ◌++◌, length, Text, strip, ltb, ltb→le,
  ok, err, >>=-eq-ok, arith, Bool-cases, Option-cases, inl, inr,
}
use superoffice_ai_support_m.Knowledge.Eligibility.{
  IngestionSourceKind, markdown_document, text_document, runbook_json, known_issue_json,
  evaluate_source,
}
use superoffice_ai_support_m.Knowledge.Artifacts.Store.{Bytes, max_canonical_text_bytes}
use superoffice_ai_support_m.Knowledge.Admission.Texts.{
  ParsedRunbook, ParsedKnownIssue, runbook_canonical, known_issue_canonical,
}
use superoffice_ai_support_m.Knowledge.Admission.Parsing.{
  Loaders, parse_text, parse_runbook, parse_known_issue,
}
use superoffice_ai_support_m.Knowledge.Admission.Payloads.{
  AdmissionSource, KnowledgeSanitizer, AdmittedPayload, admitted_document, admitted_runbook,
  admitted_known_issue, AdmissionResult, approved, Step, reject, invalid, concluded,
}
use superoffice_ai_support_m.Knowledge.Admission.{
  eligibility_view, bounded, non_empty, checked_document, document_reference_of, check_identity,
  check_affected, or_blank, sanitize_into, sanitize_steps, sanitize_workaround, admit_document,
  sanitize_runbook_content, admit_runbook, sanitize_known_issue_content, admit_known_issue,
  within_limit, admit_parsed, parse_and_admit, admit_source,
}

-- The text that is stored of a payload.
abbrev pub canonical_of : AdmittedPayload → Text
canonical_of (admitted_document d) = d.canonical_text
canonical_of (admitted_runbook r) = r.canonical_text
canonical_of (admitted_known_issue k) = k.canonical_text

-- The service itself counts the redactions of a runbook and of a known issue.
abbrev pub IsCounted : AdmittedPayload → ℕ → Type 0
IsCounted (admitted_document d) count = Unit
IsCounted (admitted_runbook r) count = count ≤ 10
IsCounted (admitted_known_issue k) count = count ≤ 10

concluded_approved :
    (step : Step (AdmittedPayload × ℕ)) (payload : AdmittedPayload) (count : ℕ)
    → concluded step ≡ approved payload count
    → step ≡ ok (payload, count)
concluded_approved (err (reject code n)) payload count h = cc h
concluded_approved (err invalid) payload count h = cc h
concluded_approved (ok (p, n)) payload count h =
    let e : p ≡ payload = cc h in let f : n ≡ count = cc h in rw (e, f) refl

module _ (lower : Text → Text) (encode : Text → Bytes) (sanitizer : KnowledgeSanitizer)
    (loaders : Loaders) where
  -- A text that the service measured, and what the model keeps of it.
  abbrev pub IsMeasured : Text → Type 0
  IsMeasured stored =
      (canonical : Text) × (stored ≡ strip canonical)
      × (length (encode canonical) ≤ max_canonical_text_bytes)

  bounded_ok :
      (text canonical : Text)
      → bounded lower encode sanitizer loaders text ≡ ok canonical
      → length (encode canonical) ≤ max_canonical_text_bytes
  unfolding bounded
  bounded_ok text canonical h =
      elim (Bool-cases (ltb max_canonical_text_bytes (length (encode text)))) [
        | inl large ↦ absurd (ground (arith, h, large))
        | inr small ↦
            let same : text ≡ canonical = ground (arith, h, small) in
            rw (sym same) (ltb→le max_canonical_text_bytes (length (encode text)) small)
      ]

  within_limit_ok :
      (total : ℕ) → within_limit lower encode sanitizer loaders total ≡ ok tt → total ≤ 10
  unfolding within_limit
  within_limit_ok total h = ground (arith, h)

  -- A payload that is measured and counted.
  abbrev IsSound : AdmittedPayload → ℕ → Type 0
  IsSound payload count = IsMeasured (canonical_of payload) × IsCounted payload count

  runbook_content_ok :
      (rb : ParsedRunbook) (content : Text × Text × List Text × List Text × ℕ)
      → sanitize_runbook_content lower encode sanitizer loaders rb ≡ ok content
      → content.4 ≤ 10
  unfolding sanitize_runbook_content
  runbook_content_ok rb content h =
      let (r1, e1, h1) = >>=-eq-ok (sanitize_into lower encode sanitizer loaders rb.title 0) _ h in
      let (r2, e2, h2) =
        >>=-eq-ok (sanitize_into lower encode sanitizer loaders rb.problem_description r1.1) _ h1 in
      let (r3, e3, h3) =
        >>=-eq-ok (sanitize_steps lower encode sanitizer loaders rb.diagnostic_steps r2.1) _ h2 in
      let (r4, e4, h4) =
        >>=-eq-ok (sanitize_steps lower encode sanitizer loaders rb.remediation_steps r3.1) _ h3 in
      let (r5, e5, h5) = >>=-eq-ok (within_limit lower encode sanitizer loaders r4.1) _ h4 in
      let same : r4.1 ≡ content.4 = cc h5 in rw (sym same) (within_limit_ok r4.1 e5)

  known_issue_content_ok :
      (ki : ParsedKnownIssue) (content : Text × Text × Text × Option Text × ℕ)
      → sanitize_known_issue_content lower encode sanitizer loaders ki ≡ ok content
      → content.4 ≤ 10
  unfolding sanitize_known_issue_content
  known_issue_content_ok ki content h =
      let (r1, e1, h1) = >>=-eq-ok (sanitize_into lower encode sanitizer loaders ki.title 0) _ h in
      let (r2, e2, h2) =
        >>=-eq-ok (sanitize_into lower encode sanitizer loaders ki.symptom_summary r1.1) _ h1 in
      let (r3, e3, h3) =
        >>=-eq-ok (sanitize_into lower encode sanitizer loaders ki.root_cause_summary r2.1) _ h2 in
      let (r4, e4, h4) =
        >>=-eq-ok (sanitize_workaround lower encode sanitizer loaders ki.workaround r3.1) _ h3 in
      let (r5, e5, h5) = >>=-eq-ok (within_limit lower encode sanitizer loaders r4.1) _ h4 in
      let same : r4.1 ≡ content.4 = cc h5 in rw (sym same) (within_limit_ok r4.1 e5)

  -- A payload that was made of a measured text.
  made :
      (given payload : AdmittedPayload) (n count : ℕ)
      → ◌≡◌ {A = Step (AdmittedPayload × ℕ)} (ok (given, n)) (ok (payload, count))
      → IsSound given n
      → IsSound payload count
  made given payload n count h sound =
      let e : given ≡ payload = cc h in let f : n ≡ count = cc h in rw (sym e, sym f) sound

  admit_runbook-IsSound :
      (source : AdmissionSource) (rb : ParsedRunbook) (payload : AdmittedPayload) (count : ℕ)
      → admit_runbook lower encode sanitizer loaders source rb ≡ approved payload count
      → IsSound payload count
  unfolding admit_runbook
  admit_runbook-IsSound source rb payload count h =
      let step = concluded_approved _ payload count h in
      let (r1, e1, h1) =
        >>=-eq-ok
          (check_identity lower encode sanitizer loaders (
            rb.runbook_id
            ∷ rb.source_reference
            ∷ or_blank rb.product
            ∷ or_blank rb.verified_version
            ∷ []))
          _ step in
      let (content, e2, h2) =
        >>=-eq-ok (sanitize_runbook_content lower encode sanitizer loaders rb) _ h1 in
      let text =
        runbook_canonical content.0 content.1 content.2 content.3 rb.product rb.verified_version in
      let (canonical, e3, h3) = >>=-eq-ok (bounded lower encode sanitizer loaders text) _ h2 in
      made _ payload content.4 count h3
        ((canonical, refl, bounded_ok text canonical e3), runbook_content_ok rb content e2)

  admit_known_issue-IsSound :
      (source : AdmissionSource) (ki : ParsedKnownIssue) (payload : AdmittedPayload) (count : ℕ)
      → admit_known_issue lower encode sanitizer loaders source ki ≡ approved payload count
      → IsSound payload count
  unfolding admit_known_issue
  admit_known_issue-IsSound source ki payload count h =
      let step = concluded_approved _ payload count h in
      let (r0, e0, h0) =
        >>=-eq-ok
          (check_identity lower encode sanitizer loaders (
            ki.issue_id
            ∷ ki.source_reference
            ∷ or_blank ki.permanent_fix_reference
            ∷ ki.category
            ∷ []))
          _ step in
      let (r1, e1, h1) =
        >>=-eq-ok
          (check_affected lower encode sanitizer loaders
            (ki.affected_products ++ ki.affected_versions))
          _ h0 in
      let (content, e2, h2) =
        >>=-eq-ok (sanitize_known_issue_content lower encode sanitizer loaders ki) _ h1 in
      let text = known_issue_canonical ki content.0 content.1 content.2 content.3 in
      let (canonical, e3, h3) = >>=-eq-ok (bounded lower encode sanitizer loaders text) _ h2 in
      made _ payload content.4 count h3
        ((canonical, refl, bounded_ok text canonical e3), known_issue_content_ok ki content e2)

  admit_document-IsSound :
      (source : AdmissionSource) (raw_text : Text) (payload : AdmittedPayload) (count : ℕ)
      → admit_document lower encode sanitizer loaders source raw_text ≡ approved payload count
      → IsSound payload count
  unfolding admit_document
  admit_document-IsSound source raw_text payload count h =
      let step = concluded_approved _ payload count h in
      let (normalized, e1, h1) =
        >>=-eq-ok
          (checked_document lower encode sanitizer loaders (sanitizer.sanitize_free_text raw_text))
          _ step in
      let (present, e2, h2) =
        >>=-eq-ok (non_empty lower encode sanitizer loaders normalized) _ h1 in
      let (canonical, e3, h3) = >>=-eq-ok (bounded lower encode sanitizer loaders present) _ h2 in
      let (reference, e4, h4) = >>=-eq-ok (document_reference_of source) _ h3 in
      made _ payload (sanitizer.sanitize_free_text raw_text).pii_count count h4
        ((canonical, refl, bounded_ok present canonical e3), tt)

  admit_parsed-IsSound :
      {A : Type 0} (next : A → AdmissionResult) (fields : Option A) (payload : AdmittedPayload)
      (count : ℕ)
      → admit_parsed lower encode sanitizer loaders next fields ≡ approved payload count
      → ((a : A) → next a ≡ approved payload count → IsSound payload count)
      → IsSound payload count
  admit_parsed-IsSound next none payload count h sound = cc h
  admit_parsed-IsSound next (some a) payload count h sound = sound a h

  parse_and_admit-IsSound :
      (source : AdmissionSource) (kind : IngestionSourceKind) (payload : AdmittedPayload)
      (count : ℕ)
      → parse_and_admit lower encode sanitizer loaders source kind ≡ approved payload count
      → IsSound payload count
  unfolding parse_and_admit
  parse_and_admit-IsSound source markdown_document payload count h =
      admit_parsed-IsSound (admit_document lower encode sanitizer loaders source)
        (parse_text loaders source.raw_bytes) payload count h
        (λ text. admit_document-IsSound source text payload count)
  parse_and_admit-IsSound source text_document payload count h =
      admit_parsed-IsSound (admit_document lower encode sanitizer loaders source)
        (parse_text loaders source.raw_bytes) payload count h
        (λ text. admit_document-IsSound source text payload count)
  parse_and_admit-IsSound source runbook_json payload count h =
      admit_parsed-IsSound (admit_runbook lower encode sanitizer loaders source)
        (parse_runbook loaders source.raw_bytes) payload count h
        (λ rb. admit_runbook-IsSound source rb payload count)
  parse_and_admit-IsSound source known_issue_json payload count h =
      admit_parsed-IsSound (admit_known_issue lower encode sanitizer loaders source)
        (parse_known_issue loaders source.raw_bytes) payload count h
        (λ ki. admit_known_issue-IsSound source ki payload count)

  -- A source that `admit_source` approves was eligible. The text that is stored is the trimmed form of a
  -- canonical text of at most MAX_CANONICAL_TEXT_BYTES bytes once it is encoded, and for a runbook or a
  -- known issue the reported count of redactions is at most 10.
  pub admit_approved :
      (source : AdmissionSource) (payload : AdmittedPayload) (count : ℕ)
      → admit_source lower encode sanitizer loaders source ≡ approved payload count
      → (evaluate_source lower (eligibility_view source) ≡ none)
        × IsMeasured (canonical_of payload)
        × IsCounted payload count
  unfolding admit_source
  admit_approved source payload count h =
      elim (Option-cases (evaluate_source lower (eligibility_view source))) [
        | inr (code, found) ↦ absurd (ground (arith, h, found))
        | inl eligible ↦
            let (measured, counted) =
              parse_and_admit-IsSound source source.source_kind payload count
                (rw (admit_source, eligible) at h) in
            (eligible, measured, counted)
      ]
