-- ===== src/Knowledge/Artifacts/Promotion.antt =====
-- From stage to promote in kb_mcp/adapters/filesystem_artifact_store.py.
use superoffice_ai_support_m.Common.{
  ℕ, ◌≡◌, refl, sym, ◌∙◌, true, false, ◌⊎◌, inl, inr, none, some, Text, text_eq_iff, text_eq_refl,
  length, all, drop_newline, arith, ok, lookup, has_key, put, lookup-remove, lookup-put_self, ap,
  subst,
}
use superoffice_ai_support_m.Knowledge.Artifacts.Names.{
  is_hex, matches_document_id, matches_staging_id,
}
use superoffice_ai_support_m.Knowledge.Artifacts.Store.{
  Bytes, CanonicalDocument, ArtifactPath, ArtifactStore, Link, linked, copied, raced, written,
  refused, torn, Disk, Outcome, after, unless, create_file, unlink_staged, find_file, StagedFile,
  ApprovedArtifactRecord,
}
use superoffice_ai_support_m.Knowledge.Artifacts.Staging.{
  stage, staging_name, token_of, check_document, write_staged,
}
use superoffice_ai_support_m.Knowledge.Artifacts.Approved.{
  dest_path, approved_record, verify_staged_content, handle_existing_artifact, link_artifact,
  place_artifact, promote, check_promotion, fits_token,
}
use superoffice_ai_support_m.Knowledge.Artifacts.Immutable.{path_eq_iff}
use superoffice_ai_support_m.Knowledge.Artifacts.Tokens.{matches_staging_id-staging_name}

-- The disk takes part: paths stay inside their directories and files can be read.
abbrev pub sound_disk : Disk
sound_disk = record { inside = true; reads_staged = true; reads_existing = true }

-- The link, or the copy, succeeds.
abbrev pub Succeeds : Link → Type 0
Succeeds linked = Unit
Succeeds (copied written) = Unit
Succeeds (copied refused) = ⊥
Succeeds (copied (torn part)) = ⊥
Succeeds (raced content) = ⊥

module _ (encode : Text → Bytes) (digest : Bytes → Text) where
  -- What a document that passes the checks of stage satisfies.
  check_document-none :
      (store : ArtifactStore) (document : CanonicalDocument)
      → check_document encode digest store document true ≡ none
      → (store.is_configured ≡ true)
        × (matches_document_id document.document_id ≡ true)
        × (digest (encode document.canonical_content) ≡ document.content_hash)
  unfolding check_document
  check_document-none store document h = (
    ground (arith, h),
    ground (arith, h),
    ground
        (arith, h, text_eq_iff (digest (encode document.canonical_content)) document.content_hash),
  )

  -- The state that a complete stage leaves.
  unfoldable staged_store : ArtifactStore → CanonicalDocument → Text → ℕ → ArtifactStore
  staged_store store document uuid_hex now = record store {
    staging =
        put (staging_name document uuid_hex)
          (record { content = encode document.canonical_content; mtime = now }) store.staging;
  }

  stage_lem :
      (store : ArtifactStore) (document : CanonicalDocument) (uuid_hex : Text) (now : ℕ)
      → check_document encode digest store document true ≡ none
      → has_key (staging_name document uuid_hex) store.staging ≡ false
      → stage encode digest store document uuid_hex now true written ≡ (
        staged_store store document uuid_hex now,
        ok (token_of document (staging_name document uuid_hex)),
      )
  unfolding stage write_staged staged_store
  stage_lem store document uuid_hex now valid fresh = rw (valid, fresh) refl

  check_promotion-none :
      (store : ArtifactStore) (document : CanonicalDocument) (staging_id : Text)
      → store.is_configured ≡ true
      → matches_staging_id staging_id ≡ true
      → check_promotion store (token_of document staging_id) document ≡ none
  unfolding check_promotion fits_token token_of
  check_promotion-none store document staging_id configured fits =
      rw
        (
          configured,
          fits,
          text_eq_refl document.document_id,
          text_eq_refl document.document_type,
          text_eq_refl document.content_hash,
        )
        refl

  verify_staged_content_lem :
      (store : ArtifactStore) (staging_id expected : Text) (file : StagedFile)
      → lookup staging_id store.staging ≡ some file
      → digest file.content ≡ expected
      → verify_staged_content digest store staging_id expected true ≡ (store, ok file.content)
  unfolding verify_staged_content
  verify_staged_content_lem store staging_id expected file present same =
      rw (verify_staged_content, present, same, text_eq_refl expected) refl

  -- The destination is free, or holds the same bytes already.
  abbrev pub IsFree : ArtifactStore → CanonicalDocument → Type 0
  IsFree store document =
      (find_file (dest_path document) store.approved ≡ none)
      ⊎ (find_file (dest_path document) store.approved ≡ some (encode document.canonical_content))

  -- What promote returns and leaves for a verified document.
  abbrev pub IsPromoted : CanonicalDocument → Text → Outcome ApprovedArtifactRecord → Type 0
  IsPromoted document staging_id outcome =
      (outcome.1 ≡ ok (approved_record document))
      × (find_file (dest_path document) outcome.0.approved
          ≡ some (encode document.canonical_content))
      × (lookup staging_id outcome.0.staging ≡ none)

  lookup-unlink_staged :
      (staging_id : Text) (store : ArtifactStore)
      → lookup staging_id (unlink_staged staging_id store).staging ≡ none
  unfolding unlink_staged
  lookup-unlink_staged staging_id store =
      rw (lookup-remove staging_id staging_id store.staging, text_eq_refl staging_id) refl

  pub find_file-create_self :
      (path : ArtifactPath) (content : Bytes) (store : ArtifactStore)
      → find_file path (create_file path content store).approved ≡ some content
  unfolding create_file find_file
  find_file-create_self path content store = rw ((path_eq_iff path path).1 refl) refl

  link_artifact-IsPromoted :
      (store : ArtifactStore) (staging_id : Text) (document : CanonicalDocument) (link : Link)
      → Succeeds link
      → IsPromoted document staging_id (
          link_artifact digest store staging_id
            (encode document.canonical_content)
            document
            sound_disk
            link)
  unfolding link_artifact unlink_staged
  link_artifact-IsPromoted store staging_id document linked done = (
    refl,
    find_file-create_self (dest_path document) (encode document.canonical_content) store,
    lookup-unlink_staged staging_id store,
  )
  link_artifact-IsPromoted store staging_id document (copied written) done = (
    refl,
    find_file-create_self (dest_path document) (encode document.canonical_content) store,
    lookup-unlink_staged staging_id store,
  )
  link_artifact-IsPromoted store staging_id document (copied refused) done = absurd done
  link_artifact-IsPromoted store staging_id document (copied (torn part)) done = absurd done
  link_artifact-IsPromoted store staging_id document (raced content) done = absurd done

  handle_existing_artifact-IsPromoted :
      (store : ArtifactStore) (staging_id : Text) (document : CanonicalDocument)
      → digest (encode document.canonical_content) ≡ document.content_hash
      → find_file (dest_path document) store.approved ≡ some (encode document.canonical_content)
      → IsPromoted document staging_id (
          handle_existing_artifact digest store staging_id
            (encode document.canonical_content)
            document
            (encode document.canonical_content)
            true)
  unfolding handle_existing_artifact
  handle_existing_artifact-IsPromoted store staging_id document same held =
      rw
        (same, text_eq_refl document.content_hash, text_eq_refl (encode document.canonical_content))
        (refl, held, lookup-unlink_staged staging_id store)

  place_artifact-IsPromoted :
      (store : ArtifactStore) (staging_id : Text) (document : CanonicalDocument) (link : Link)
      → digest (encode document.canonical_content) ≡ document.content_hash
      → IsFree store document
      → Succeeds link
      → IsPromoted document staging_id (
          place_artifact digest store staging_id
            (encode document.canonical_content)
            document
            sound_disk
            link)
  unfolding place_artifact
  place_artifact-IsPromoted store staging_id document link same (inl absent) done =
      rw absent (link_artifact-IsPromoted store staging_id document link done)
  place_artifact-IsPromoted store staging_id document link same (inr held) done =
      rw held (handle_existing_artifact-IsPromoted store staging_id document same held)

  promote-IsPromoted :
      (store : ArtifactStore) (document : CanonicalDocument) (staging_id : Text) (file : StagedFile)
      (link : Link)
      → store.is_configured ≡ true
      → matches_staging_id staging_id ≡ true
      → lookup staging_id store.staging ≡ some file
      → file.content ≡ encode document.canonical_content
      → digest (encode document.canonical_content) ≡ document.content_hash
      → IsFree store document
      → Succeeds link
      → IsPromoted document staging_id
          (promote digest store (token_of document staging_id) document sound_disk link)
  unfolding promote token_of
  promote-IsPromoted store document staging_id file link configured fits present whole same free
        done =
      let token = token_of document staging_id in
      let next : ArtifactStore → Bytes → Outcome ApprovedArtifactRecord =
        λ store' staged. place_artifact digest store' staging_id staged document sound_disk link in
      let verified =
        verify_staged_content_lem store staging_id document.content_hash file present
          (rw whole same) in
      let call : promote digest store token document sound_disk link
          ≡ next store (encode document.canonical_content) =
        ap
          (λ found.
            unless found store (
              after (verify_staged_content digest store staging_id document.content_hash true)
                next))
          (check_promotion-none store document staging_id configured fits)
        ∙ ap (λ outcome. after outcome next) verified
        ∙ ap (next store) whole in
      subst (IsPromoted document staging_id) (sym call)
        (place_artifact-IsPromoted store staging_id document link same free done)

  -- Take a document that passes the checks of stage and whose identifier does not end in a
  -- newline, a fresh identifier of 32 hexadecimal digits whose staging name is not taken, a
  -- destination that is free or holds the same bytes, and a disk on which nothing fails.
  -- Then stage returns a token, promote accepts that token and returns the record of the
  -- document, the approved file holds the encoded content, and the staged file is gone.
  pub promote-stage :
      (store : ArtifactStore) (document : CanonicalDocument) (uuid_hex : Text) (now : ℕ)
      (link : Link)
      → check_document encode digest store document true ≡ none
      → drop_newline document.document_id ≡ document.document_id
      → all is_hex uuid_hex ≡ true
      → length uuid_hex ≡ 32
      → has_key (staging_name document uuid_hex) store.staging ≡ false
      → IsFree store document
      → Succeeds link
      → (stage encode digest store document uuid_hex now true written).1
          ≡ ok (token_of document (staging_name document uuid_hex))
        × IsPromoted document (staging_name document uuid_hex) (
            promote digest
              (stage encode digest store document uuid_hex now true written).0
              (token_of document (staging_name document uuid_hex))
              document
              sound_disk
              link)
  unfolding staged_store
  promote-stage store document uuid_hex now link valid trimmed hex size fresh free done =
      let name = staging_name document uuid_hex in
      let (configured, fits, same) = check_document-none store document valid in
      let file : StagedFile = record { content = encode document.canonical_content; mtime = now } in
      rw (stage_lem store document uuid_hex now valid fresh) (
        refl,
        promote-IsPromoted (staged_store store document uuid_hex now) document name file link
            configured (matches_staging_id-staging_name document uuid_hex fits trimmed hex size)
            (lookup-put_self name file store.staging) refl same free done,
      )
