-- ===== src/Knowledge/Canonical.antt =====
-- kb_mcp/ingestion/canonical.py: from a sanitized payload to the document that the artifact store
-- takes. `encode` is str.encode("utf-8") and `digest` the hexadecimal SHA-256. The models trim their
-- texts and check the lengths. Of a runbook and a known issue the fields are kept that are read.
pub mod Identity
use superoffice_ai_support_m.Common.{
  ℕ, Bool, true, false, not, ◌&&◌, ◌||◌, Option, none, some, List, [], ◌∷◌, ◌++◌, map, any,
  is_empty, length, take, drop, Text, codes, strip, is_blank, is_space, member, starts_with,
  ends_with, contains, drop_newline, ltb, leb, ◌==◌, ◌-◌, ◌+◌, Result, ok, err, ◌>>=◌, ◌>>◌,
  if◌then◌else◌,
}
use superoffice_ai_support_m.Knowledge.Eligibility.{
  CorpusCategory, documentation, sop, runbook, known_issue, incident_pattern,
}
use superoffice_ai_support_m.Knowledge.Artifacts.Names.{allowed_document_types}
use superoffice_ai_support_m.Knowledge.Artifacts.Store.{Bytes, CanonicalDocument}

-- The error codes of KnowledgeAdmissionError, and pydantic's ValidationError.
pub data CanonicalError : Type 0 where
  invalid_provenance empty_content invalid_document_type invalid_document_id : CanonicalError
  invalid_model : CanonicalError

pub record DocumentPayload : Type 0 where
  pub source_name : Text
  pub corpus_category : CorpusCategory
  pub canonical_text : Text
  pub source_reference : Option Text

pub record StructuredPayload : Type 0 where
  pub title : Text
  pub canonical_text : Text
  pub source_reference : Text

pub data SanitizedPayload : Type 0 where
  document_payload : DocumentPayload → SanitizedPayload
  runbook_payload known_issue_payload : StructuredPayload → SanitizedPayload

-- A CanonicalKnowledgeDocumentDTO: what the store reads, and the rest.
pub record KnowledgeDocument : Type 0 where
  pub stored : CanonicalDocument
  pub title : Text
  pub source_reference : Text
  pub corpus_category : CorpusCategory
  pub structured_payload : Option SanitizedPayload

-- CorpusCategory.value
abbrev pub category_value : CorpusCategory → Text
category_value documentation = codes "documentation"
category_value sop = codes "sop"
category_value runbook = codes "runbook"
category_value known_issue = codes "known_issue"
category_value incident_pattern = codes "incident_pattern"

abbrev pub scheme_of : CorpusCategory → Text
scheme_of documentation = codes "docs://"
scheme_of sop = codes "sop://"
scheme_of runbook = codes "runbook://"
scheme_of known_issue = codes "known-issue://"
scheme_of incident_pattern = codes "incident-pattern://"

-- [a-zA-Z]
abbrev is_letter : ℕ → Bool
is_letter c = (leb b'a' c && leb c b'z') || (leb b'A' c && leb c b'Z')

-- ^[a-zA-Z]:
abbrev pub drive_letter : Text → Bool
drive_letter (c ∷ d ∷ s) = is_letter c && d == b':'
drive_letter _ = false

-- [^/\s]*, as far as it goes
authority : Text → Text
authority [] = []
authority (c ∷ s) = let rest = authority s in if c == b'/' || is_space c then [] else c ∷ rest

-- [^/\s]+@ at the start of an authority
abbrev password_part : Text → Bool
password_part [] = false
password_part (c ∷ s) = any (λ d. d == b'@') s

-- :[^/\s]+@ at any place
user_part : Text → Bool
user_part [] = false
user_part (c ∷ s) = (c == b':' && password_part s) || user_part s

-- [^/\s]+:[^/\s]+@ at the start
unfoldable starts_credentials : Text → Bool
unfolding authority user_part
starts_credentials s = elim (authority s) [ [] ↦ false | ◌∷◌ c rest ↦ user_part rest ]

-- ://[^/\s]+:[^/\s]+@ at any place
unfoldable pub credentials : Text → Bool
unfolding starts_with starts_credentials
credentials [] = false
credentials (c ∷ s) =
    (starts_with (c ∷ s) (codes "://") && starts_credentials (drop 3 (c ∷ s))) || credentials s

-- ^[a-zA-Z]:|\\|://[^/\s]+:[^/\s]+@|\.\.
unfoldable pub is_unsafe : Text → Bool
unfolding credentials contains
is_unsafe ref =
    drive_letter ref || any (λ c. c == b'\\') ref || credentials ref || contains ref (codes "..")

unfoldable pub validate_provenance : Text → CorpusCategory → Result CanonicalError (Unit {0})
unfolding strip starts_with is_unsafe
validate_provenance source_reference category =
    let ref = strip source_reference in
    let path_part = drop (length (scheme_of category)) ref in
    if is_empty ref
    then err invalid_provenance
    else if ltb 128 (length ref)
    then err invalid_provenance
    else if is_unsafe ref
    then err invalid_provenance
    else if not (starts_with ref (scheme_of category))
    then err invalid_provenance
    else if any (λ c. not (c == b'/')) path_part
    then ok tt
    else err invalid_provenance

-- c before the first line
abbrev prepend_char : ℕ → List Text → List Text
prepend_char c [] = (c ∷ []) ∷ []
prepend_char c (line ∷ lines) = (c ∷ line) ∷ lines

-- The code points at which str.splitlines splits.
abbrev is_line_break : ℕ → Bool
is_line_break c =
    (leb 10 c && leb c 13) || (leb 28 c && leb c 30) || c == 0x85 || c == 0x2028 || c == 0x2029

-- text.splitlines(), where a carriage return and a line feed are one break
splitlines : Text → List Text
unfolding starts_with
splitlines [] = []
splitlines (c ∷ s) =
    let rest = splitlines s in
    if c == b'\r' && starts_with s (b'\n' ∷ [])
    then rest
    else if is_line_break c
    then [] ∷ rest
    else prepend_char c rest

-- The first line that starts with "# ", without it and trimmed.
unfoldable first_heading : List Text → Option Text
unfolding strip starts_with
first_heading [] = none
first_heading (line ∷ lines) =
    let rest = first_heading lines in
    if starts_with (strip line) (codes "# ") then some (strip (drop 2 (strip line))) else rest

abbrev fold_case : ℕ → ℕ
fold_case c = if leb b'A' c && leb c b'Z' then c + 32 else c

-- re.sub(r"\.(md|txt)$", "", name, flags=re.IGNORECASE).strip()
unfoldable pub clean_name : Text → Text
unfolding strip drop_newline ends_with
clean_name name =
    let word = drop_newline name in
    let lowered = map fold_case word in
    if ends_with lowered (codes ".md")
    then strip (take (length word - 3) word)
    else if ends_with lowered (codes ".txt")
    then strip (take (length word - 4) word)
    else strip name

unfoldable pub extract_document_title : DocumentPayload → Option Text → Text
unfolding strip is_blank splitlines first_heading clean_name
extract_document_title payload title_override =
    let found : Text = elim (first_heading (splitlines payload.canonical_text)) [
      | some heading ↦ take 255 heading
      | none ↦ take 255 (clean_name payload.source_name)
    ] in
    elim title_override [
      | some title ↦ if is_blank title then found else take 255 (strip title)
      | none ↦ found
    ]

-- `override or given`
abbrev pub or_text : Option Text → Text → Text
or_text none given = given
or_text (some override) given = if is_empty override then given else override

-- source_reference or payload.source_reference, or one that is made of the name
unfoldable pub document_reference : DocumentPayload → Option Text → Text
unfolding clean_name
document_reference payload source_reference = or_text source_reference (
    or_text payload.source_reference
      (scheme_of payload.corpus_category ++ clean_name payload.source_name))

module _ (encode : Text → Bytes) (digest : Bytes → Text) where
  unfoldable pub compute_content_hash : Text → Result CanonicalError Text
  unfolding is_blank
  compute_content_hash content =
      if is_blank content then err empty_content else ok (digest (encode content))

  unfoldable pub generate_document_id : Text → Text → Result CanonicalError Text
  unfolding strip
  generate_document_id logical_source_identity document_type =
      let identity = strip logical_source_identity in
      let doc_type = strip document_type in
      let hashed = take 24 (digest (encode (identity ++ codes ":" ++ doc_type))) in
      let doc_id = codes "doc_" ++ hashed in
      if is_empty identity
      then err invalid_provenance
      else if not (member doc_type allowed_document_types)
      then err invalid_document_type
      else if ltb 64 (length doc_id)
      then err invalid_document_id
      else ok doc_id

  -- The model's own checks: lengths of the trimmed texts.
  unfoldable pub new_document :
      Text
      → Text
      → CorpusCategory
      → Text
      → Text
      → Text
      → Option SanitizedPayload
      → Result CanonicalError KnowledgeDocument
  unfolding strip
  new_document document_id title category source_reference content content_hash payload =
      let made : KnowledgeDocument = record {
        stored = record {
          document_id = strip document_id;
          document_type = strip (category_value category);
          canonical_content = strip content;
          content_hash = strip content_hash;
        };
        title = strip (take 255 title);
        source_reference = strip (take 128 source_reference);
        corpus_category = category;
        structured_payload = payload;
      } in
      if is_empty made.title
        || is_empty made.source_reference
        || is_empty made.stored.canonical_content
        || not (length made.stored.content_hash == 64)
      then err invalid_model
      else ok made

  -- What the three builders have in common.
  unfoldable pub build_dto :
      Text
      → CorpusCategory
      → Text
      → Text
      → Option SanitizedPayload
      → Result CanonicalError KnowledgeDocument
  unfolding validate_provenance compute_content_hash generate_document_id new_document
  build_dto title category source_reference content payload = do
    validate_provenance source_reference category
    content_hash ← compute_content_hash content
    document_id ← generate_document_id source_reference (category_value category)
    new_document document_id title category source_reference content content_hash payload

  unfoldable pub build_canonical_document :
      SanitizedPayload → Option Text → Option Text → Result CanonicalError KnowledgeDocument
  unfolding build_dto extract_document_title document_reference
  build_canonical_document (runbook_payload payload) title source_reference =
      build_dto payload.title runbook (or_text source_reference payload.source_reference)
        payload.canonical_text (some (runbook_payload payload))
  build_canonical_document (known_issue_payload payload) title source_reference =
      build_dto payload.title known_issue (or_text source_reference payload.source_reference)
        payload.canonical_text (some (known_issue_payload payload))
  build_canonical_document (document_payload payload) title source_reference =
      build_dto (extract_document_title payload title) payload.corpus_category
        (document_reference payload source_reference) payload.canonical_text none
