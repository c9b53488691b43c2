-- ===== src/Knowledge/Artifacts/Addressed.antt =====
-- The store of kb_mcp/adapters/filesystem_artifact_store.py is content-addressed: an approved
-- artifact's name is the hash of its bytes.
use superoffice_ai_support_m.Common.{
  ℕ, ◌≡◌, refl, Bool, none, some, List, [], ◌∷◌, ◌++◌, All, Text, codes, text_eq, text_eq_iff,
  length, length-append, ◌-◌, take-length_append, drop-length_append, ok, if◌then◌else◌, arith,
  Bool-cases, Option-cases, inl, inr, lookup,
}
use superoffice_ai_support_m.Knowledge.Artifacts.Names.{matches_content_hash}
use superoffice_ai_support_m.Knowledge.Artifacts.Store.{
  Bytes, CanonicalDocument, ArtifactPath, ArtifactStore, Link, linked, copied, raced, written,
  refused, torn, Disk, Outcome, after, after-preserves, unless-preserves, Write, remove_file,
  create_file, unlink_staged, find_file, path_eq, StagedArtifactToken, Write,
}
use superoffice_ai_support_m.Knowledge.Artifacts.Staging.{
  stage, write_staged, discard_staged, cleanup_stale_staging, check_document, check_discard,
  staging_name, token_of,
}
use superoffice_ai_support_m.Knowledge.Artifacts.Approved.{
  hash_part, dest_path, verify_staged_content, handle_existing_artifact, link_artifact,
  place_artifact, promote, check_promotion, check_removal, remove_unreferenced, artifact_path,
}
use superoffice_ai_support_m.Knowledge.Artifacts.Calls.{
  Call, stage_call, promote_call, discard_call, remove_call, cleanup_call, run_call, run_calls,
}

-- The scan reads back the hash that promote puts in a file's name.
pub hash_part_named :
    (hash : Text)
    → hash_part (hash ++ codes ".md") ≡ (if matches_content_hash hash then some hash else none)
unfolding hash_part text_eq
hash_part_named hash =
    let stem : (length (hash ++ codes ".md") - 3) ≡ length hash =
      omega (arith, length-append hash (codes ".md")) in
    rw (stem, drop-length_append hash (codes ".md"), take-length_append hash (codes ".md"))

module _ (encode : Text → Bytes) (digest : Bytes → Text) where
  abbrev pub Addressed : ArtifactPath × Bytes → Type 0
  Addressed (path, content) =
      (hash : Text) → hash_part path.file_name ≡ some hash → digest content ≡ hash

  -- Every approved file whose name is that of an artifact.
  abbrev pub IsAddressed : ArtifactStore → Type 0
  IsAddressed store = All Addressed store.approved

  -- The destination does not get other bytes than those of the document: no copy broke off, and
  -- another process that was faster wrote an artifact too.
  abbrev pub IsClean : CanonicalDocument → Link → Type 0
  IsClean document linked = Unit
  IsClean document (copied (torn part)) = ⊥
  IsClean document (copied written) = Unit
  IsClean document (copied refused) = Unit
  IsClean document (raced content) = digest content ≡ document.content_hash

  abbrev pub IsCleanCall : Call → Type 0
  IsCleanCall (promote_call token document disk link) = IsClean document link
  IsCleanCall _ = Unit

  Addressed-dest :
      (document : CanonicalDocument) (content : Bytes)
      → digest content ≡ document.content_hash
      → Addressed (dest_path document, content)
  unfolding dest_path
  Addressed-dest document content same hash named =
      let read = hash_part_named document.content_hash in
      elim (Bool-cases (matches_content_hash document.content_hash)) [
        | inl fits ↦ rw same (ground (arith, named, read, fits))
        | inr other ↦ absurd (ground (arith, named, read, other))
      ]

  remove_file-All :
      (path : ArtifactPath) (files : List (ArtifactPath × Bytes))
      → All Addressed files
      → All Addressed (remove_file path files)
  unfolding remove_file
  remove_file-All path [] h = tt
  remove_file-All path ((q, content) ∷ files) (here, later) = elim (Bool-cases (path_eq q path)) [
    | inl same ↦ rw same (remove_file-All path files later)
    | inr other ↦ rw other (here, remove_file-All path files later)
  ]

  pub handle_existing_artifact-approved :
      (store : ArtifactStore) (staging_id : Text) (staged_bytes : Bytes)
      (document : CanonicalDocument) (dest_bytes : Bytes) (readable : Bool)
      → (handle_existing_artifact digest store staging_id staged_bytes document dest_bytes
          readable).0.approved
        ≡ store.approved
  unfolding handle_existing_artifact unlink_staged
  handle_existing_artifact-approved store staging_id staged_bytes document dest_bytes readable =
      ground arith

  pub verify_staged_content-approved :
      (store : ArtifactStore) (staging_id expected : Text) (readable : Bool)
      → (verify_staged_content digest store staging_id expected readable).0.approved
        ≡ store.approved
  unfolding verify_staged_content unlink_staged
  verify_staged_content-approved store staging_id expected readable = ground arith

  -- What is verified has the hash that was expected.
  pub verify_staged_content-digest :
      (store : ArtifactStore) (staging_id expected : Text) (readable : Bool) (content : Bytes)
      → (verify_staged_content digest store staging_id expected readable).1 ≡ ok content
      → digest content ≡ expected
  unfolding verify_staged_content
  verify_staged_content-digest store staging_id expected readable content h =
      elim (Option-cases (lookup staging_id store.staging)) [
        | inl absent ↦ absurd (ground (arith, h, absent))
        | inr (file, present) ↦
            ground (arith, h, present, text_eq_iff (digest file.content) expected)
      ]

  -- Any result keeps the files addressed that were, where the link is clean.
  link_artifact-IsAddressed :
      (store : ArtifactStore) (staging_id : Text) (staged_bytes : Bytes)
      (document : CanonicalDocument) (disk : Disk) (link : Link)
      → IsAddressed store
      → digest staged_bytes ≡ document.content_hash
      → IsClean document link
      → IsAddressed (link_artifact digest store staging_id staged_bytes document disk link).0
  unfolding link_artifact create_file unlink_staged
  link_artifact-IsAddressed store staging_id staged document disk linked h same clean =
      (Addressed-dest document staged same, h)
  link_artifact-IsAddressed store staging_id staged document disk (copied written) h same clean =
      (Addressed-dest document staged same, h)
  link_artifact-IsAddressed store staging_id staged document disk (copied refused) h same clean = h
  link_artifact-IsAddressed store staging_id staged document disk (copied (torn part)) h same
        clean =
      absurd clean
  link_artifact-IsAddressed store staging_id staged document disk (raced content) h same clean =
      rw
        (handle_existing_artifact-approved (create_file (dest_path document) content store)
          staging_id staged document content disk.reads_existing)
        (Addressed-dest document content clean, h)

  place_artifact-IsAddressed :
      (store : ArtifactStore) (staging_id : Text) (staged_bytes : Bytes)
      (document : CanonicalDocument) (disk : Disk) (link : Link)
      → IsAddressed store
      → digest staged_bytes ≡ document.content_hash
      → IsClean document link
      → IsAddressed (place_artifact digest store staging_id staged_bytes document disk link).0
  unfolding place_artifact
  place_artifact-IsAddressed store staging_id staged document disk link h same clean =
      elim (Bool-cases disk.inside) [
        | inr outside ↦ rw outside h
        | inl inside ↦ elim (Option-cases (find_file (dest_path document) store.approved)) [
          | inl absent ↦
              rw (inside, absent)
                (link_artifact-IsAddressed store staging_id staged document disk link h same clean)
          | inr (content, present) ↦
              rw
                (
                  inside,
                  present,
                  handle_existing_artifact-approved store staging_id staged document content
                      disk.reads_existing,
                )
                h
        ]
      ]

  promote-IsAddressed :
      (store : ArtifactStore) (token : StagedArtifactToken) (document : CanonicalDocument)
      (disk : Disk) (link : Link)
      → IsAddressed store
      → IsClean document link
      → IsAddressed (promote digest store token document disk link).0
  unfolding promote
  promote-IsAddressed store token document disk link h clean =
      let verified : Outcome Bytes =
        verify_staged_content digest store token.staging_id document.content_hash
          disk.reads_staged in
      let kept : IsAddressed verified.0 =
        rw
          (verify_staged_content-approved store token.staging_id document.content_hash
            disk.reads_staged)
          h in
      unless-preserves IsAddressed (check_promotion store token document) store _ h (
        after-preserves IsAddressed verified _ kept (λ content returned.
          place_artifact-IsAddressed verified.0 token.staging_id content document disk link kept
            (verify_staged_content-digest store token.staging_id document.content_hash
              disk.reads_staged content returned)
            clean))

  pub discard_staged-approved :
      (store : ArtifactStore) (token : StagedArtifactToken) (inside : Bool)
      → (discard_staged store token inside).0.approved ≡ store.approved
  unfolding discard_staged unlink_staged
  discard_staged-approved store token inside =
      unless-preserves (λ s. s.approved ≡ store.approved) (check_discard store token inside) store _
        refl (ground arith)

  pub cleanup_stale_staging-approved :
      (store : ArtifactStore) (now max_age : ℕ)
      → (cleanup_stale_staging store now max_age).0.approved ≡ store.approved
  unfolding cleanup_stale_staging
  cleanup_stale_staging-approved store now max_age = ground arith

  remove_unreferenced-IsAddressed :
      (store : ArtifactStore) (document_type document_id content_hash : Text) (inside : Bool)
      → IsAddressed store
      → IsAddressed (remove_unreferenced store document_type document_id content_hash inside).0
  unfolding remove_unreferenced
  remove_unreferenced-IsAddressed store type id hash inside h =
      unless-preserves IsAddressed (check_removal store type id hash inside) store _ h
        (elim (Option-cases (find_file (artifact_path type id hash) store.approved)) [
          | inl absent ↦ rw absent h
          | inr (content, present) ↦
              rw present (remove_file-All (artifact_path type id hash) store.approved h)
        ])

  write_staged-approved :
      (store : ArtifactStore) (name : Text) (content : Bytes) (now : ℕ) (write : Write)
      → (write_staged store name content now write).0.approved ≡ store.approved
  unfolding write_staged
  write_staged-approved store name content now written = ground arith
  write_staged-approved store name content now refused = ground arith
  write_staged-approved store name content now (torn part) = ground arith

  pub stage-approved :
      (store : ArtifactStore) (document : CanonicalDocument) (uuid_hex : Text) (now : ℕ)
      (inside : Bool) (write : Write)
      → (stage encode digest store document uuid_hex now inside write).0.approved ≡ store.approved
  unfolding stage
  stage-approved store document uuid_hex now inside write =
      let name = staging_name document uuid_hex in
      let content = encode document.canonical_content in
      let next : ArtifactStore → Unit {0} → Outcome StagedArtifactToken =
        λ store' _. (store', ok (token_of document name)) in
      let kept = write_staged-approved store name content now write in
      unless-preserves (λ s. s.approved ≡ store.approved)
        (check_document encode digest store document inside) store
        (after (write_staged store name content now write) next) refl
        (after-preserves (λ s. s.approved ≡ store.approved)
          (write_staged store name content now write) next kept (λ _ _. kept))

  run_call-IsAddressed :
      (store : ArtifactStore) (call : Call)
      → IsAddressed store
      → IsCleanCall call
      → IsAddressed (run_call encode digest store call)
  unfolding run_call
  run_call-IsAddressed store (stage_call document uuid_hex now inside write) h clean =
      rw (stage-approved store document uuid_hex now inside write) h
  run_call-IsAddressed store (promote_call token document disk link) h clean =
      promote-IsAddressed store token document disk link h clean
  run_call-IsAddressed store (discard_call token inside) h clean =
      rw (discard_staged-approved store token inside) h
  run_call-IsAddressed store (remove_call type id hash inside) h clean =
      remove_unreferenced-IsAddressed store type id hash inside h
  run_call-IsAddressed store (cleanup_call now max_age) h clean =
      rw (cleanup_stale_staging-approved store now max_age) h

  -- Take a store in which every approved file under the name of an artifact is named by the
  -- hash of its bytes, and any sequence of stage, promote, discard_staged,
  -- remove_unreferenced and cleanup_stale_staging, whether each returns or raises. If no
  -- copy broke off in the middle and another process that made a destination first wrote
  -- bytes of that hash there, the store that is left has the property again.
  pub run_calls-IsAddressed :
      (store : ArtifactStore) (calls : List Call)
      → IsAddressed store
      → All IsCleanCall calls
      → IsAddressed (run_calls encode digest store calls)
  unfolding run_calls
  run_calls-IsAddressed store [] h clean = h
  run_calls-IsAddressed store (call ∷ calls) h (here, later) =
      run_calls-IsAddressed (run_call encode digest store call) calls
        (run_call-IsAddressed store call h here) later
