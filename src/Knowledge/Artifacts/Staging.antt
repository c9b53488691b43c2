-- ===== src/Knowledge/Artifacts/Staging.antt =====
-- The staging side of kb_mcp/adapters/filesystem_artifact_store.py: stage, discard_staged and
-- cleanup_stale_staging.
use superoffice_ai_support_m.Common.{
  ℕ, Bool, true, false, not, ◌&&◌, Option, none, some, [], ◌∷◌, ◌++◌, Text, codes, text_eq, member,
  Dict, has_key, put, length, ltb, ◌+◌, suc, ok, err, if◌then◌else◌,
}
use superoffice_ai_support_m.Knowledge.Artifacts.Names.{
  allowed_document_types, matches_document_id, matches_content_hash, matches_staging_id,
}
use superoffice_ai_support_m.Knowledge.Artifacts.Store.{
  Bytes, max_canonical_text_bytes, ArtifactError, root_not_configured, stage_failed, hash_mismatch,
  cleanup_failed, CanonicalDocument, StagedArtifactToken, StagedFile, ArtifactStore, Write, written,
  refused, torn, Outcome, after, unless, unlink_staged,
}

unfoldable pub staging_name : CanonicalDocument → Text → Text
staging_name document uuid_hex = document.document_id ++ codes "_" ++ uuid_hex ++ codes ".tmp"

-- The checks of stage before it writes.
unfoldable pub check_document :
    (Text → Bytes)
    → (Bytes → Text)
    → ArtifactStore
    → CanonicalDocument
    → Bool
    → Option ArtifactError
unfolding matches_document_id matches_content_hash
check_document encode digest store document inside =
    if not store.is_configured
    then some root_not_configured
    else if not (member document.document_type allowed_document_types)
    then some stage_failed
    else if not (matches_document_id document.document_id)
    then some stage_failed
    else if not (matches_content_hash document.content_hash)
    then some stage_failed
    else if not (text_eq (digest (encode document.canonical_content)) document.content_hash)
    then some hash_mismatch
    else if ltb max_canonical_text_bytes (length (encode document.canonical_content))
    then some stage_failed
    else if not inside
    then some stage_failed
    else none

-- open("xb") and the write, at a clock reading
unfoldable pub write_staged : ArtifactStore → Text → Bytes → ℕ → Write → Outcome (Unit {0})
write_staged store staging_id content now write =
    if has_key staging_id store.staging then (store, err stage_failed) else elim write [
      | written ↦ (
        record store {
          staging = put staging_id (record { content = content; mtime = now }) store.staging;
        },
        ok tt,
      )
      | refused ↦ (store, err stage_failed)
      | torn part ↦ (
        record store {
          staging = put staging_id (record { content = part; mtime = now }) store.staging;
        },
        err stage_failed,
      )
    ]

unfoldable pub token_of : CanonicalDocument → Text → StagedArtifactToken
token_of document staging_id = record {
  staging_id = staging_id;
  document_id = document.document_id;
  document_type = document.document_type;
  content_hash = document.content_hash;
}

module _ (encode : Text → Bytes) (digest : Bytes → Text) where
  unfoldable pub stage :
      ArtifactStore → CanonicalDocument → Text → ℕ → Bool → Write → Outcome StagedArtifactToken
  unfolding check_document write_staged staging_name token_of
  stage store document uuid_hex now inside write =
      unless (check_document encode digest store document inside) store (
        after
          (write_staged store (staging_name document uuid_hex) (encode document.canonical_content)
            now write)
          (λ store' _. (store', ok (token_of document (staging_name document uuid_hex)))))

unfoldable pub check_discard : ArtifactStore → StagedArtifactToken → Bool → Option ArtifactError
unfolding matches_staging_id
check_discard store token inside =
    if not store.is_configured
    then some root_not_configured
    else if not (matches_staging_id token.staging_id)
    then some cleanup_failed
    else if not inside
    then some cleanup_failed
    else none

unfoldable pub discard_staged : ArtifactStore → StagedArtifactToken → Bool → Outcome Bool
unfolding check_discard unlink_staged
discard_staged store token inside = unless (check_discard store token inside) store (
    if has_key token.staging_id store.staging
    then (unlink_staged token.staging_id store, ok true)
    else (store, ok false))

-- The loop of cleanup_stale_staging over the staging directory at a clock reading: what stays, and
-- how many files were removed.
unfoldable pub clean_entries : ℕ → ℕ → Dict StagedFile → Dict StagedFile × ℕ
unfolding matches_staging_id
clean_entries now max_age [] = ([], 0)
clean_entries now max_age ((name, file) ∷ entries) =
    let (kept, count) = clean_entries now max_age entries in
    if matches_staging_id name && ltb (file.mtime + max_age) now
    then (kept, suc count)
    else ((name, file) ∷ kept, count)

unfoldable pub cleanup_stale_staging : ArtifactStore → ℕ → ℕ → Outcome ℕ
unfolding clean_entries
cleanup_stale_staging store now max_age =
    if not store.is_configured
    then (store, err root_not_configured)
    else let (kept, count) = clean_entries now max_age store.staging in
      (record store { staging = kept }, ok count)
