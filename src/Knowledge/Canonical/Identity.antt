-- ===== src/Knowledge/Canonical/Identity.antt =====
-- The documents that kb_mcp/ingestion/canonical.py builds are ones that the artifact store takes.
use superoffice_ai_support_m.Common.{
  ℕ, ◌≡◌, refl, sym, subst, ◌∙◌, ap, true, false, ◌&&◌, Option, none, some, [], ◌∷◌, ◌++◌, all,
  all-append, all-take, length, length-take, take, drop, Text, codes, strip, is_solid,
  strip-solid_text, drop_newline, drop_newline-solid_text, member, starts_with, ltb, ◌==◌, ok,
  >>=-eq-ok, arith, and_parts, text_eq, text_eq_refl, has_key,
}
use superoffice_ai_support_m.Knowledge.Eligibility.{
  CorpusCategory, documentation, sop, runbook, known_issue, incident_pattern,
}
use superoffice_ai_support_m.Knowledge.Artifacts.Names.{
  allowed_document_types, is_hex, matches_document_id, matches_content_hash,
}
use superoffice_ai_support_m.Knowledge.Artifacts.Store.{
  Bytes, CanonicalDocument, ArtifactStore, max_canonical_text_bytes, Link, written,
}
use superoffice_ai_support_m.Knowledge.Artifacts.Staging.{
  check_document, stage, staging_name, token_of,
}
use superoffice_ai_support_m.Knowledge.Artifacts.Approved.{promote}
use superoffice_ai_support_m.Knowledge.Artifacts.Promotion.{
  sound_disk, Succeeds, IsFree, IsPromoted, promote-stage,
}
use superoffice_ai_support_m.Knowledge.Canonical.{
  SanitizedPayload, document_payload, runbook_payload, known_issue_payload, KnowledgeDocument,
  category_value, compute_content_hash, generate_document_id, new_document, build_dto,
  build_canonical_document, validate_provenance, or_text, extract_document_title,
  document_reference,
}

-- The text that is hashed.
abbrev pub text_of : SanitizedPayload → Text
text_of (document_payload payload) = payload.canonical_text
text_of (runbook_payload payload) = payload.canonical_text
text_of (known_issue_payload payload) = payload.canonical_text

hex-solid : (c : ℕ) → is_hex c ≡ true → is_solid c ≡ true
unfolding is_hex is_solid
hex-solid c h = ground (arith, h)

all_solid-hex : (s : Text) → all is_hex s ≡ true → all is_solid s ≡ true
all_solid-hex [] h = refl
all_solid-hex (c ∷ s) h =
    let (here, later) = and_parts (is_hex c) (all is_hex s) h in
    rw (hex-solid c here, all_solid-hex s later) refl

strip-category :
    (category : CorpusCategory) → strip (category_value category) ≡ category_value category
unfolding strip
strip-category documentation = refl
strip-category sop = refl
strip-category runbook = refl
strip-category known_issue = refl
strip-category incident_pattern = refl

member-category :
    (category : CorpusCategory) → member (category_value category) allowed_document_types ≡ true
unfolding member text_eq
member-category documentation = refl
member-category sop = refl
member-category runbook = refl
member-category known_issue = refl
member-category incident_pattern = refl

matches_content_hash-hex :
    (hash : Text) → all is_hex hash ≡ true → length hash ≡ 64 → matches_content_hash hash ≡ true
unfolding matches_content_hash
matches_content_hash-hex hash hex size =
    rw (drop_newline-solid_text hash (all_solid-hex hash hex), hex, size) refl

-- An identifier made of 24 digits.
module _ (digits : Text) (hex : all is_hex digits ≡ true) (size : length digits ≡ 24) where
  all_solid-document_id : all is_solid (codes "doc_" ++ digits) ≡ true
  unfolding is_solid
  all_solid-document_id =
      rw (all-append is_solid (codes "doc_") digits, all_solid-hex digits hex) refl

  matches_document_id-hex : matches_document_id (codes "doc_" ++ digits) ≡ true
  unfolding matches_document_id starts_with
  matches_document_id-hex =
      subst
        (λ (w : Text).
          (starts_with w (codes "doc_") && all is_hex (drop 4 w) && length w == 28) ≡ true)
        (sym (drop_newline-solid_text (codes "doc_" ++ digits) all_solid-document_id))
        (rw (hex, size) refl)

module _ (encode : Text → Bytes) (digest : Bytes → Text)
    (hex : (bytes : Bytes) → all is_hex (digest bytes) ≡ true)
    (size : (bytes : Bytes) → length (digest bytes) ≡ 64) where
  -- What a document has that was built from a text.
  pub record IsBuilt (content : Text) (document : CanonicalDocument) : Type 0 where
    pub identified : matches_document_id document.document_id ≡ true
    pub trimmed : drop_newline document.document_id ≡ document.document_id
    pub typed : member document.document_type allowed_document_types ≡ true
    pub hashed : matches_content_hash document.content_hash ≡ true
    pub addressed : digest (encode document.canonical_content) ≡ document.content_hash
    pub kept : document.canonical_content ≡ content

  IsBuilt-check_document :
      (store : ArtifactStore) (content : Text) (document : CanonicalDocument)
      → IsBuilt content document
      → store.is_configured ≡ true
      → ltb max_canonical_text_bytes (length (encode content)) ≡ false
      → check_document encode digest store document true ≡ none
  unfolding check_document
  IsBuilt-check_document store content document b configured small =
      rw
        (
          configured,
          b.typed,
          b.identified,
          b.hashed,
          b.addressed,
          b.kept,
          text_eq_refl document.content_hash,
          small,
        )
        refl

  compute_content_hash_ok :
      (content hash : Text)
      → compute_content_hash encode digest content ≡ ok hash
      → hash ≡ digest (encode content)
  unfolding compute_content_hash
  compute_content_hash_ok content hash h = ground (arith, h)

  generate_document_id_ok :
      (identity document_type id : Text)
      → generate_document_id encode digest identity document_type ≡ ok id
      → (bytes : Bytes) × (id ≡ codes "doc_" ++ take 24 (digest bytes))
  unfolding generate_document_id
  generate_document_id_ok identity document_type id h =
      (encode (strip identity ++ codes ":" ++ strip document_type), ground (arith, h))

  new_document_ok :
      (document_id title : Text) (category : CorpusCategory) (reference content hash : Text)
      (payload : Option SanitizedPayload) (document : KnowledgeDocument)
      → new_document encode digest document_id title category reference content hash payload
        ≡ ok document
      → document.stored ≡ record {
        document_id = strip document_id;
        document_type = strip (category_value category);
        canonical_content = strip content;
        content_hash = strip hash;
      }
  unfolding new_document
  new_document_ok document_id title category reference content hash payload document h =
      ground (arith, h)

  stored-IsBuilt :
      (document_id content hash : Text) (category : CorpusCategory) (bytes : Bytes)
      → document_id ≡ codes "doc_" ++ take 24 (digest bytes)
      → hash ≡ digest (encode content)
      → strip content ≡ content
      → IsBuilt content (record {
        document_id = strip document_id;
        document_type = strip (category_value category);
        canonical_content = strip content;
        content_hash = strip hash;
      })
  stored-IsBuilt document_id content hash category bytes made same trimmed =
      let digits = take 24 (digest bytes) in
      let digits_hex = all-take is_hex 24 (digest bytes) (hex bytes) in
      let digits_size = length-take 24 (digest bytes) (omega (arith, size bytes)) in
      let solid = all_solid-document_id digits digits_hex digits_size in
      let whole : strip document_id ≡ codes "doc_" ++ digits =
        ap strip made ∙ strip-solid_text (codes "doc_" ++ digits) solid in
      let hash_whole : strip hash ≡ digest (encode content) =
        ap strip same
        ∙ strip-solid_text (digest (encode content))
            (all_solid-hex (digest (encode content)) (hex (encode content))) in
      record {
        identified = rw whole (matches_document_id-hex digits digits_hex digits_size);
        trimmed = rw whole (drop_newline-solid_text (codes "doc_" ++ digits) solid);
        typed = rw (strip-category category) (member-category category);
        hashed = rw hash_whole (
            matches_content_hash-hex (digest (encode content)) (hex (encode content))
              (size (encode content)));
        addressed = rw (trimmed, hash_whole) refl;
        kept = trimmed;
      }

  build_dto-IsBuilt :
      (title : Text) (category : CorpusCategory) (reference content : Text)
      (payload : Option SanitizedPayload) (document : KnowledgeDocument)
      → strip content ≡ content
      → build_dto encode digest title category reference content payload ≡ ok document
      → IsBuilt content document.stored
  unfolding build_dto
  build_dto-IsBuilt title category reference content payload document trimmed h =
      let (passed, checked, rest) = >>=-eq-ok (validate_provenance reference category) _ h in
      let (hash, hashed, rest') = >>=-eq-ok (compute_content_hash encode digest content) _ rest in
      let (id, made, built) =
        >>=-eq-ok (generate_document_id encode digest reference (category_value category)) _
          rest' in
      let (bytes, made') = generate_document_id_ok reference (category_value category) id made in
      subst (IsBuilt content)
        (sym (new_document_ok id title category reference content hash payload document built))
        (stored-IsBuilt id content hash category bytes made'
          (compute_content_hash_ok content hash hashed) trimmed)

  build_canonical_document-IsBuilt :
      (payload : SanitizedPayload) (title reference : Option Text) (document : KnowledgeDocument)
      → strip (text_of payload) ≡ text_of payload
      → build_canonical_document encode digest payload title reference ≡ ok document
      → IsBuilt (text_of payload) document.stored
  unfolding build_canonical_document
  build_canonical_document-IsBuilt (runbook_payload payload) title reference document trimmed h =
      build_dto-IsBuilt payload.title runbook (or_text reference payload.source_reference)
        payload.canonical_text (some (runbook_payload payload)) document trimmed h
  build_canonical_document-IsBuilt (known_issue_payload payload) title reference document trimmed
        h =
      build_dto-IsBuilt payload.title known_issue (or_text reference payload.source_reference)
        payload.canonical_text (some (known_issue_payload payload)) document trimmed h
  build_canonical_document-IsBuilt (document_payload payload) title reference document trimmed h =
      build_dto-IsBuilt (extract_document_title payload title) payload.corpus_category
        (document_reference payload reference) payload.canonical_text none document trimmed h

  -- A trimmed payload whose document was built, of at most MAX_CANONICAL_TEXT_BYTES bytes, can be
  -- staged and promoted: with the digest that SHA-256 has, a configured store, a fresh identifier of
  -- 32 hexadecimal digits whose staging name is not taken, a destination that is free or holds the
  -- same bytes, and a disk on which nothing fails, stage returns a token, promote accepts it and
  -- returns the record, the approved file holds the encoded content, and the staged file is gone.
  pub promote-build_canonical_document :
      (payload : SanitizedPayload) (title reference : Option Text) (document : KnowledgeDocument)
      (store : ArtifactStore) (uuid_hex : Text) (now : ℕ) (link : Link)
      → strip (text_of payload) ≡ text_of payload
      → build_canonical_document encode digest payload title reference ≡ ok document
      → ltb max_canonical_text_bytes (length (encode (text_of payload))) ≡ false
      → store.is_configured ≡ true
      → all is_hex uuid_hex ≡ true
      → length uuid_hex ≡ 32
      → has_key (staging_name document.stored uuid_hex) store.staging ≡ false
      → IsFree encode digest store document.stored
      → Succeeds link
      → ((stage encode digest store document.stored uuid_hex now true written).1
          ≡ ok (token_of document.stored (staging_name document.stored uuid_hex)))
        × IsPromoted encode digest document.stored (staging_name document.stored uuid_hex) (
            promote digest
              (stage encode digest store document.stored uuid_hex now true written).0
              (token_of document.stored (staging_name document.stored uuid_hex))
              document.stored
              sound_disk
              link)
  promote-build_canonical_document payload title reference document store uuid_hex now link trimmed
        built small configured digits count fresh free done =
      let b = build_canonical_document-IsBuilt payload title reference document trimmed built in
      promote-stage encode digest store document.stored uuid_hex now link
        (IsBuilt-check_document store (text_of payload) document.stored b configured small)
        b.trimmed digits count fresh free done
