-- ===== src/Knowledge/Eligibility/Admission.antt =====
-- The sources that kb_mcp/ingestion/eligibility.py lets in.
use superoffice_ai_support_m.Common.{
  ◌≤◌, ◌≡◌, refl, ◌↔◌, false, ◌||◌, Option, none, some, [], ◌∷◌, Text, strip, is_empty, member, any,
  ◌==◌, arith, Option-cases, inl, inr,
}
use superoffice_ai_support_m.Knowledge.Eligibility.{
  AdmissionSourceInput, AdmissionReasonCode, IngestionSourceKind, CorpusCategory,
  check_classification, check_source_name, check_alignment, check_kind_and_category, check_size,
  evaluate_source, attachment_classifications, prohibited_classifications, path_in_name,
  to_source_kind, to_category, or_next, or_empty, max_source_file_bytes, min_source_text_bytes,
  runbook_json, known_issue_json, markdown_document, text_document, runbook, known_issue,
}

-- Runbooks and known issues are exactly what the two structured kinds carry.
abbrev pub Aligned : IngestionSourceKind → CorpusCategory → Type 0
Aligned kind category =
    ((kind ≡ runbook_json) ↔ (category ≡ runbook))
    × ((kind ≡ known_issue_json) ↔ (category ≡ known_issue))

pub record IsAdmissible (lower : Text → Text) (source : AdmissionSourceInput) : Type 0 where
  pub unclassified :
      (member (lower (strip (or_empty source.classification))) attachment_classifications
        || member (lower (strip (or_empty source.classification))) prohibited_classifications)
      ≡ false
  pub named : is_empty (strip source.source_name) ≡ false
  pub plain : any (λ c. c == b'/' || c == b'\\' || c == b':') (strip source.source_name) ≡ false
  pub kind : IngestionSourceKind
  pub category : CorpusCategory
  pub kind_known : to_source_kind source.source_kind ≡ some kind
  pub category_known : to_category source.corpus_category ≡ some category
  pub aligned : Aligned kind category
  pub large : min_source_text_bytes ≤ source.byte_count
  pub small : source.byte_count ≤ max_source_file_bytes

check_alignment_iff :
    (kind : IngestionSourceKind) (category : CorpusCategory)
    → (check_alignment kind category ≡ none) ↔ Aligned kind category
unfolding check_alignment
check_alignment_iff markdown_document category = (
  (λ h. (((λ e. cc), (λ e. ground arith)), ((λ e. cc), (λ e. ground arith)))),
  (λ a. ground (arith, a.0.1, a.1.1)),
)
check_alignment_iff text_document category = (
  (λ h. (((λ e. cc), (λ e. ground arith)), ((λ e. cc), (λ e. ground arith)))),
  (λ a. ground (arith, a.0.1, a.1.1)),
)
check_alignment_iff runbook_json category = (
  (λ h. (((λ e. ground arith), (λ e. refl)), ((λ e. cc), (λ e. ground arith)))),
  (λ a. ground (arith, a.0.0 refl)),
)
check_alignment_iff known_issue_json category = (
  (λ h. (((λ e. cc), (λ e. ground arith)), ((λ e. ground arith), (λ e. refl)))),
  (λ a. ground (arith, a.1.0 refl)),
)

plain_name :
    (name : Text)
    → any (λ c. c == b'/' || c == b'\\' || c == b':') name ≡ false
    → path_in_name name ≡ false
unfolding path_in_name
plain_name [] h = refl
plain_name (c ∷ []) h = ground arith
plain_name (c ∷ d ∷ name) h = ground arith

or_next-none : (a b : Option AdmissionReasonCode) → or_next a b ≡ none → (a ≡ none) × (b ≡ none)
or_next-none none b h = (refl, h)
or_next-none (some code) b h = cc

kind_and_category_sound :
    (kind category : Text)
    → check_kind_and_category kind category ≡ none
    → (k : IngestionSourceKind) × (c : CorpusCategory) × (to_source_kind kind ≡ some k)
      × (to_category category ≡ some c)
      × Aligned k c
unfolding check_kind_and_category
kind_and_category_sound kind category h = elim (Option-cases (to_source_kind kind)) [
  | inl e ↦ absurd (let f = rw (e, check_kind_and_category) at h in cc)
  | inr (k, e) ↦ elim (Option-cases (to_category category)) [
    | inl f ↦ absurd (let g = rw (e, check_kind_and_category, f) at h in cc)
    | inr (c, f) ↦
        (k, c, e, f, (check_alignment_iff k c).0 (rw (e, check_kind_and_category, f) at h))
  ]
]

-- A source is eligible exactly if its classification is neither an attachment nor prohibited, its
-- trimmed name is not empty and has no slash, backslash or colon, its kind and category are known
-- and agree (runbook_json with runbook and with nothing else, known_issue_json with known_issue and
-- with nothing else), and it has from 10 to 2097152 bytes.
pub evaluate_source_iff :
    (lower : Text → Text) (source : AdmissionSourceInput)
    → (evaluate_source lower source ≡ none) ↔ IsAdmissible lower source
unfolding evaluate_source check_classification check_source_name check_size
evaluate_source_iff lower source = (
  (λ h.
      let (classified, h1) = or_next-none (check_classification lower source.classification) _ h in
      let (name, h2) = or_next-none (check_source_name source.source_name) _ h1 in
      let (kinds, size) =
        or_next-none (check_kind_and_category source.source_kind source.corpus_category) _ h2 in
      let (k, c, e, f, a) =
        kind_and_category_sound source.source_kind source.corpus_category kinds in
      record {
        unclassified = ground arith;
        named = ground arith;
        plain = unfold path_in_name in ground arith;
        kind = k;
        category = c;
        kind_known = e;
        category_known = f;
        aligned = a;
        large = ground arith;
        small = ground arith;
      }),
  (λ a.
      let classified : check_classification lower source.classification ≡ none =
        ground (arith, a.unclassified) in
      let name : check_source_name source.source_name ≡ none =
        ground (arith, a.named, plain_name (strip source.source_name) a.plain) in
      let kinds : check_kind_and_category source.source_kind source.corpus_category ≡ none =
        unfold check_kind_and_category in
        rw (a.kind_known, check_kind_and_category, a.category_known)
          ((check_alignment_iff a.kind a.category).1 a.aligned) in
      let size : check_size source.byte_count ≡ none = ground (arith, a.large, a.small) in
      rw (classified, name, kinds, size)),
)
