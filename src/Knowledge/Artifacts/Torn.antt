-- ===== src/Knowledge/Artifacts/Torn.antt =====
-- A promotion in kb_mcp/adapters/filesystem_artifact_store.py whose copy breaks off.
use superoffice_ai_support_m.Common.{
  ◌≡◌, refl, inl, inr, none, some, List, All, Text, text_eq, text_eq_iff, ◌≢◌, ok, err, lookup,
  Bool-cases, Option-cases, arith,
}
use superoffice_ai_support_m.Knowledge.Artifacts.Store.{
  Bytes, CanonicalDocument, ArtifactStore, StagedArtifactToken, StagedFile, ApprovedArtifactRecord,
  Disk, Link, Outcome, after, copied, torn, create_file, find_file, promotion_failed,
}
use superoffice_ai_support_m.Knowledge.Artifacts.Approved.{
  dest_path, handle_existing_artifact, link_artifact, place_artifact, verify_staged_content,
  check_promotion, promote,
}
use superoffice_ai_support_m.Knowledge.Artifacts.Addressed.{verify_staged_content-approved}
use superoffice_ai_support_m.Knowledge.Artifacts.Calls.{Call, run_calls}
use superoffice_ai_support_m.Knowledge.Artifacts.Immutable.{Spares, run_calls-immutable}
use superoffice_ai_support_m.Knowledge.Artifacts.Promotion.{sound_disk, find_file-create_self}

module _ (encode : Text → Bytes) (digest : Bytes → Text) (document : CanonicalDocument)
    (part : Bytes) (differ : digest part ≢ document.content_hash) where
  handle_existing_artifact_fails :
      (store : ArtifactStore) (staging_id : Text) (staged : Bytes) (disk : Disk)
      {answer : ApprovedArtifactRecord}
      → (handle_existing_artifact digest store staging_id staged document part
          disk.reads_existing).1
        ≢ ok answer
  unfolding handle_existing_artifact
  handle_existing_artifact_fails store staging_id staged disk h =
      elim (Bool-cases (text_eq (digest part) document.content_hash)) [
        | inl same ↦ differ ((text_eq_iff (digest part) document.content_hash).0 same)
        | inr other ↦ ground (arith, h, other)
      ]

  -- No promotion succeeds while the destination has these bytes.
  place_artifact_fails :
      (store : ArtifactStore) (staging_id : Text) (staged : Bytes) (disk : Disk) (link : Link)
      {answer : ApprovedArtifactRecord}
      → find_file (dest_path document) store.approved ≡ some part
      → (place_artifact digest store staging_id staged document disk link).1 ≢ ok answer
  unfolding place_artifact
  place_artifact_fails store staging_id staged disk link held h = elim (Bool-cases disk.inside) [
    | inr outside ↦ ground (arith, h, outside)
    | inl inside ↦
        handle_existing_artifact_fails store staging_id staged disk (rw (inside, held) at h)
  ]

  after_verified :
      (verified : Outcome Bytes) (staging_id : Text) (disk : Disk) (link : Link)
      {answer : ApprovedArtifactRecord}
      → find_file (dest_path document) verified.0.approved ≡ some part
      → (after verified
          (λ store staged. place_artifact digest store staging_id staged document disk link)).1
        ≢ ok answer
  after_verified (store, err e) staging_id disk link held h = cc h
  after_verified (store, ok staged) staging_id disk link held h =
      place_artifact_fails store staging_id staged disk link held h

  promote_fails :
      (store : ArtifactStore) (token : StagedArtifactToken) (disk : Disk) (link : Link)
      {answer : ApprovedArtifactRecord}
      → find_file (dest_path document) store.approved ≡ some part
      → (promote digest store token document disk link).1 ≢ ok answer
  unfolding promote
  promote_fails store token disk link held h =
      elim (Option-cases (check_promotion store token document)) [
        | inr (e, found) ↦ let k = rw found at h in cc k
        | inl passed ↦
            let verified =
              verify_staged_content digest store token.staging_id document.content_hash
                disk.reads_staged in
            let kept =
              verify_staged_content-approved encode digest store token.staging_id
                document.content_hash disk.reads_staged in
            after_verified verified token.staging_id disk link (rw kept held) (rw passed at h)
      ]

  -- A token fits the document, its staged file has the document's hash and can be read, paths stay
  -- inside the root, the destination is free, and the copy breaks off and leaves bytes with another
  -- hash. Then promote raises ARTIFACT_PROMOTION_FAILED, and afterwards, through any sequence of
  -- calls in which no remove_unreferenced names the destination, no promotion of the document
  -- returns, whatever its token and whatever the file system answers.
  pub promote_torn :
      (store : ArtifactStore) (token : StagedArtifactToken) (file : StagedFile)
      → check_promotion store token document ≡ none
      → lookup token.staging_id store.staging ≡ some file
      → digest file.content ≡ document.content_hash
      → find_file (dest_path document) store.approved ≡ none
      → (calls : List Call) → All (Spares encode digest (dest_path document) part) calls
      → (again : StagedArtifactToken) (disk : Disk) (link : Link) (answer : ApprovedArtifactRecord)
      → ((promote digest store token document sound_disk (copied (torn part))).1
          ≡ err promotion_failed)
        × ((promote digest
              (run_calls encode digest
                (promote digest store token document sound_disk (copied (torn part))).0
                calls)
              again
              document
              disk
              link).1
            ≢ ok answer)
  unfolding promote create_file
  promote_torn store token file fits staged hashed absent calls spared again disk link answer =
      let left = create_file (dest_path document) part store in
      let torn_promote : promote digest store token document sound_disk (copied (torn part))
          ≡ (left, err promotion_failed) =
        rw
          (
            promote,
            fits,
            verify_staged_content,
            staged,
            (text_eq_iff (digest file.content) document.content_hash).1 hashed,
            place_artifact,
            absent,
            link_artifact,
          )
          refl in
      let held = find_file-create_self encode digest (dest_path document) part store in
      let kept =
        run_calls-immutable encode digest (dest_path document) part left calls held spared in
      (
        rw torn_promote refl,
        rw torn_promote (promote_fails (run_calls encode digest left calls) again disk link kept),
      )
