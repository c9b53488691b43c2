-- ===== src/Knowledge/Artifacts/Approved.antt =====
-- The approved side of kb_mcp/adapters/filesystem_artifact_store.py: promote, remove_unreferenced
-- and enumerate_approved_artifacts.
use superoffice_ai_support_m.Common.{
  Bool, true, false, not, ◌&&◌, ◌||◌, Option, none, some, List, [], ◌∷◌, ◌++◌, Text, codes, text_eq,
  member, lookup, length, ltb, ◌-◌, take, drop, Result, ok, err, if◌then◌else◌, ◌==◌,
}
use superoffice_ai_support_m.Knowledge.Artifacts.Names.{
  allowed_document_types, matches_document_id, matches_content_hash, matches_staging_id,
}
use superoffice_ai_support_m.Knowledge.Artifacts.Store.{
  Bytes, ArtifactError, root_not_configured, hash_mismatch, promotion_failed, cleanup_failed,
  CanonicalDocument, StagedArtifactToken, ApprovedArtifactRecord, ArtifactPath, ArtifactStore,
  written, refused, torn, Link, linked, copied, raced, Disk, Outcome, after, unless, find_file,
  remove_file, unlink_staged, create_file,
}

unfoldable pub dest_path : CanonicalDocument → ArtifactPath
dest_path document = record {
  document_type = document.document_type;
  document_id = document.document_id;
  file_name = document.content_hash ++ codes ".md";
}

unfoldable pub approved_record : CanonicalDocument → ApprovedArtifactRecord
approved_record document = record {
  document_type = document.document_type;
  document_id = document.document_id;
  content_hash = document.content_hash;
}

unfoldable pub fits_token : StagedArtifactToken → CanonicalDocument → Bool
fits_token token document =
    text_eq token.document_id document.document_id
    && text_eq token.document_type document.document_type
    && text_eq token.content_hash document.content_hash

-- The checks of promote before it reads.
unfoldable pub check_promotion :
    ArtifactStore → StagedArtifactToken → CanonicalDocument → Option ArtifactError
unfolding fits_token matches_staging_id
check_promotion store token document =
    if not store.is_configured
    then some root_not_configured
    else if not (fits_token token document)
    then some promotion_failed
    else if not (matches_staging_id token.staging_id)
    then some promotion_failed
    else none

module _ (digest : Bytes → Text) where
  unfoldable pub verify_staged_content : ArtifactStore → Text → Text → Bool → Outcome Bytes
  unfolding unlink_staged
  verify_staged_content store staging_id expected_hash readable =
      elim (lookup staging_id store.staging) [
        | none ↦ (store, err promotion_failed)
        | some file ↦
            if not readable
            then (store, err promotion_failed)
            else if text_eq (digest file.content) expected_hash
            then (store, ok file.content)
            else (unlink_staged staging_id store, err hash_mismatch)
      ]

  unfoldable pub handle_existing_artifact :
      ArtifactStore
      → Text
      → Bytes
      → CanonicalDocument
      → Bytes
      → Bool
      → Outcome ApprovedArtifactRecord
  unfolding unlink_staged approved_record
  handle_existing_artifact store staging_id staged_bytes document dest_bytes readable =
      if not readable
      then (store, err promotion_failed)
      else if text_eq (digest dest_bytes) document.content_hash && text_eq dest_bytes staged_bytes
      then (unlink_staged staging_id store, ok (approved_record document))
      else (store, err hash_mismatch)

  -- The link, or the copy, of a destination that was not there.
  unfoldable pub link_artifact :
      ArtifactStore
      → Text
      → Bytes
      → CanonicalDocument
      → Disk
      → Link
      → Outcome ApprovedArtifactRecord
  unfolding handle_existing_artifact unlink_staged create_file dest_path approved_record
  link_artifact store staging_id staged_bytes document disk linked = (
    unlink_staged staging_id (create_file (dest_path document) staged_bytes store),
    ok (approved_record document),
  )
  link_artifact store staging_id staged_bytes document disk (copied written) = (
    unlink_staged staging_id (create_file (dest_path document) staged_bytes store),
    ok (approved_record document),
  )
  link_artifact store staging_id staged_bytes document disk (copied refused) =
      (store, err promotion_failed)
  link_artifact store staging_id staged_bytes document disk (copied (torn part)) =
      (create_file (dest_path document) part store, err promotion_failed)
  link_artifact store staging_id staged_bytes document disk (raced content) =
      handle_existing_artifact (create_file (dest_path document) content store) staging_id
        staged_bytes document content disk.reads_existing

  -- promote after the staged content is verified
  unfoldable pub place_artifact :
      ArtifactStore
      → Text
      → Bytes
      → CanonicalDocument
      → Disk
      → Link
      → Outcome ApprovedArtifactRecord
  unfolding handle_existing_artifact link_artifact dest_path
  place_artifact store staging_id staged_bytes document disk link =
      if not disk.inside
      then (store, err promotion_failed)
      else elim (find_file (dest_path document) store.approved) [
        | some dest_bytes ↦
            handle_existing_artifact store staging_id staged_bytes document dest_bytes
              disk.reads_existing
        | none ↦ link_artifact store staging_id staged_bytes document disk link
      ]

  unfoldable pub promote :
      ArtifactStore
      → StagedArtifactToken
      → CanonicalDocument
      → Disk
      → Link
      → Outcome ApprovedArtifactRecord
  unfolding check_promotion verify_staged_content place_artifact
  promote store token document disk link = unless (check_promotion store token document) store (
      after (verify_staged_content store token.staging_id document.content_hash disk.reads_staged)
        (λ store' staged_bytes.
          place_artifact store' token.staging_id staged_bytes document disk link))

unfoldable pub artifact_path : Text → Text → Text → ArtifactPath
artifact_path document_type document_id content_hash = record {
  document_type = document_type;
  document_id = document_id;
  file_name = content_hash ++ codes ".md";
}

unfoldable pub check_removal : ArtifactStore → Text → Text → Text → Bool → Option ArtifactError
unfolding matches_document_id matches_content_hash
check_removal store document_type document_id content_hash inside =
    if not store.is_configured
    then some root_not_configured
    else if not (member document_type allowed_document_types)
    then some cleanup_failed
    else if not (matches_document_id document_id)
    then some cleanup_failed
    else if not (matches_content_hash content_hash)
    then some cleanup_failed
    else if not inside
    then some cleanup_failed
    else none

unfoldable pub remove_unreferenced : ArtifactStore → Text → Text → Text → Bool → Outcome Bool
unfolding check_removal find_file remove_file artifact_path
remove_unreferenced store document_type document_id content_hash inside =
    let path = artifact_path document_type document_id content_hash in
    unless (check_removal store document_type document_id content_hash inside) store
      (elim (find_file path store.approved) [
        | none ↦ (store, ok false)
        | some content ↦ (record store { approved = remove_file path store.approved }, ok true)
      ])

-- file_name.endswith(".md") and file_name[:-3], which must be a content hash
unfoldable pub hash_part : Text → Option Text
unfolding matches_content_hash
hash_part file_name =
    let stem = length file_name - 3 in
    if text_eq (drop stem file_name) (codes ".md")
    then (if matches_content_hash (take stem file_name) then some (take stem file_name) else none)
    else none

-- What the scan makes of one file.
unfoldable pub record_of : ArtifactPath → Option ApprovedArtifactRecord
unfolding hash_part matches_document_id
record_of path =
    if member path.document_type allowed_document_types && matches_document_id path.document_id
    then elim (hash_part path.file_name) [
      | none ↦ none
      | some content_hash ↦ some (record {
        document_type = path.document_type;
        document_id = path.document_id;
        content_hash = content_hash;
      })
    ]
    else none

unfoldable pub scan : List (ArtifactPath × Bytes) → List ApprovedArtifactRecord
unfolding record_of
scan [] = []
scan ((path, content) ∷ files) =
    let rest = scan files in elim (record_of path) [ none ↦ rest | some r ↦ r ∷ rest ]

-- s < t
unfoldable pub text_lt : Text → Text → Bool
text_lt s [] = false
text_lt [] (d ∷ t) = true
text_lt (c ∷ s) (d ∷ t) = ltb c d || (c == d && text_lt s t)

-- The sort key (document_type, document_id, content_hash), compared as tuples are.
unfoldable pub record_lt : ApprovedArtifactRecord → ApprovedArtifactRecord → Bool
unfolding text_lt
record_lt r q =
    text_lt r.document_type q.document_type
    || (text_eq r.document_type q.document_type
        && (text_lt r.document_id q.document_id
            || (text_eq r.document_id q.document_id && text_lt r.content_hash q.content_hash)))

unfoldable pub insert_record :
    ApprovedArtifactRecord → List ApprovedArtifactRecord → List ApprovedArtifactRecord
unfolding record_lt
insert_record r [] = r ∷ []
insert_record r (q ∷ records) =
    let rest = insert_record r records in if record_lt q r then q ∷ rest else r ∷ q ∷ records

-- records.sort(key=...)
unfoldable pub sort_records : List ApprovedArtifactRecord → List ApprovedArtifactRecord
unfolding insert_record
sort_records [] = []
sort_records (r ∷ records) = insert_record r (sort_records records)

unfoldable pub enumerate_approved_artifacts :
    ArtifactStore → Result ArtifactError (List ApprovedArtifactRecord)
unfolding scan sort_records
enumerate_approved_artifacts store =
    if not store.is_configured
    then err root_not_configured
    else ok (sort_records (scan store.approved))
