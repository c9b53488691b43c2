-- ===== src/Knowledge/Artifacts/Immutable.antt =====
-- An approved artifact of kb_mcp/adapters/filesystem_artifact_store.py is never overwritten.
use superoffice_ai_support_m.Common.{
  ◌≡◌, refl, Bool, true, false, none, some, List, [], ◌∷◌, All, Text, text_eq_iff, text_eq_refl,
  if◌then◌else◌, arith, Bool-cases, Option-cases, inl, inr, ap, ◌↔◌, ◌∙◌,
}
use superoffice_ai_support_m.Knowledge.Artifacts.Store.{
  Bytes, CanonicalDocument, ArtifactPath, ArtifactStore, Link, linked, copied, raced, written,
  refused, torn, Disk, Outcome, after-preserves, unless-preserves, remove_file, create_file,
  unlink_staged, find_file, path_eq, StagedArtifactToken,
}
use superoffice_ai_support_m.Knowledge.Artifacts.Approved.{
  dest_path, verify_staged_content, link_artifact, place_artifact, promote, check_promotion,
  check_removal, remove_unreferenced, artifact_path,
}
use superoffice_ai_support_m.Knowledge.Artifacts.Addressed.{
  stage-approved, discard_staged-approved, cleanup_stale_staging-approved,
  verify_staged_content-approved, handle_existing_artifact-approved,
}
use superoffice_ai_support_m.Knowledge.Artifacts.Calls.{
  Call, stage_call, promote_call, discard_call, remove_call, cleanup_call, run_call, run_calls,
}

pub path_eq_iff : (p q : ArtifactPath) → (path_eq p q ≡ true) ↔ (p ≡ q)
unfolding path_eq
path_eq_iff p q = (
  (λ h. ground (
    arith,
    h,
    text_eq_iff p.document_type q.document_type,
    text_eq_iff p.document_id q.document_id,
    text_eq_iff p.file_name q.file_name,
  )),
  (λ h. rw (h, text_eq_refl q.document_type, text_eq_refl q.document_id, text_eq_refl q.file_name)),
)

-- A file that is created hides no other.
find_file-create :
    (path new : ArtifactPath) (content part : Bytes) (store : ArtifactStore)
    → find_file path store.approved ≡ some content
    → find_file new store.approved ≡ none
    → find_file path (create_file new part store).approved ≡ some content
unfolding find_file create_file
find_file-create path new content part store held absent = elim (Bool-cases (path_eq new path)) [
  | inl same ↦ absurd (let e = (path_eq_iff new path).0 same in ground (arith, e, held, absent))
  | inr other ↦ rw other held
]

find_file-remove :
    (path gone : ArtifactPath) (files : List (ArtifactPath × Bytes))
    → path_eq gone path ≡ false
    → find_file path (remove_file gone files) ≡ find_file path files
unfolding find_file remove_file
find_file-remove path gone [] h = refl
find_file-remove path gone ((q, content) ∷ files) h =
    let rest = find_file-remove path gone files h in
    elim (Bool-cases (path_eq q gone)) [
      | inl same ↦
          let e = (path_eq_iff q gone).0 same in
          let apart : path_eq q path ≡ false = rw e h in rw (same, apart) rest
      | inr other ↦ rw other (ap (λ later. if path_eq q path then some content else later) rest)
    ]

module _ (encode : Text → Bytes) (digest : Bytes → Text) (path : ArtifactPath)
    (content : Bytes) where
  -- The file has these bytes.
  abbrev Held : ArtifactStore → Type 0
  Held store = find_file path store.approved ≡ some content

  -- A call that does not ask to remove the file.
  abbrev pub Spares : Call → Type 0
  Spares (remove_call document_type document_id content_hash inside) =
      path_eq (artifact_path document_type document_id content_hash) path ≡ false
  Spares _ = Unit

  link_artifact-Held :
      (store : ArtifactStore) (staging_id : Text) (staged_bytes : Bytes)
      (document : CanonicalDocument) (disk : Disk) (link : Link)
      → Held store
      → find_file (dest_path document) store.approved ≡ none
      → Held (link_artifact digest store staging_id staged_bytes document disk link).0
  unfolding link_artifact unlink_staged
  link_artifact-Held store staging_id staged document disk linked held absent =
      find_file-create path (dest_path document) content staged store held absent
  link_artifact-Held store staging_id staged document disk (copied written) held absent =
      find_file-create path (dest_path document) content staged store held absent
  link_artifact-Held store staging_id staged document disk (copied refused) held absent = held
  link_artifact-Held store staging_id staged document disk (copied (torn part)) held absent =
      find_file-create path (dest_path document) content part store held absent
  link_artifact-Held store staging_id staged document disk (raced other) held absent =
      rw
        (handle_existing_artifact-approved encode digest
          (create_file (dest_path document) other store) staging_id staged document other
          disk.reads_existing)
        (find_file-create path (dest_path document) content other store held absent)

  place_artifact-Held :
      (store : ArtifactStore) (staging_id : Text) (staged_bytes : Bytes)
      (document : CanonicalDocument) (disk : Disk) (link : Link)
      → Held store
      → Held (place_artifact digest store staging_id staged_bytes document disk link).0
  unfolding place_artifact
  place_artifact-Held store staging_id staged document disk link held =
      elim (Bool-cases disk.inside) [
        | inr outside ↦ rw outside held
        | inl inside ↦ elim (Option-cases (find_file (dest_path document) store.approved)) [
          | inl absent ↦
              rw (inside, absent)
                (link_artifact-Held store staging_id staged document disk link held absent)
          | inr (other, present) ↦
              rw
                (
                  inside,
                  present,
                  handle_existing_artifact-approved encode digest store staging_id staged document
                      other disk.reads_existing,
                )
                held
        ]
      ]

  promote-Held :
      (store : ArtifactStore) (token : StagedArtifactToken) (document : CanonicalDocument)
      (disk : Disk) (link : Link)
      → Held store
      → Held (promote digest store token document disk link).0
  unfolding promote
  promote-Held store token document disk link held =
      let verified : Outcome Bytes =
        verify_staged_content digest store token.staging_id document.content_hash
          disk.reads_staged in
      let kept : Held verified.0 =
        rw
          (verify_staged_content-approved encode digest store token.staging_id document.content_hash
            disk.reads_staged)
          held in
      unless-preserves Held (check_promotion store token document) store _ held (
        after-preserves Held verified _ kept (λ staged _.
          place_artifact-Held verified.0 token.staging_id staged document disk link kept))

  remove_unreferenced-Held :
      (store : ArtifactStore) (document_type document_id content_hash : Text) (inside : Bool)
      → Held store
      → path_eq (artifact_path document_type document_id content_hash) path ≡ false
      → Held (remove_unreferenced store document_type document_id content_hash inside).0
  unfolding remove_unreferenced
  remove_unreferenced-Held store type id hash inside held spared =
      let gone = artifact_path type id hash in
      unless-preserves Held (check_removal store type id hash inside) store _ held
        (elim (Option-cases (find_file gone store.approved)) [
          | inl absent ↦ rw absent held
          | inr (other, present) ↦
              rw present (find_file-remove path gone store.approved spared ∙ held)
        ])

  run_call-Held :
      (store : ArtifactStore) (call : Call)
      → Held store
      → Spares call
      → Held (run_call encode digest store call)
  unfolding run_call
  run_call-Held store (stage_call document uuid_hex now inside write) held spared =
      rw (stage-approved encode digest store document uuid_hex now inside write) held
  run_call-Held store (promote_call token document disk link) held spared =
      promote-Held store token document disk link held
  run_call-Held store (discard_call token inside) held spared =
      rw (discard_staged-approved encode digest store token inside) held
  run_call-Held store (remove_call type id hash inside) held spared =
      remove_unreferenced-Held store type id hash inside held spared
  run_call-Held store (cleanup_call now max_age) held spared =
      rw (cleanup_stale_staging-approved encode digest store now max_age) held

  -- An approved file keeps its bytes through any sequence of stage, promote, discard_staged,
  -- remove_unreferenced and cleanup_stale_staging in which no remove_unreferenced names that
  -- very file, whatever the file system answers to the calls.
  pub run_calls-immutable :
      (store : ArtifactStore) (calls : List Call)
      → find_file path store.approved ≡ some content
      → All Spares calls
      → find_file path (run_calls encode digest store calls).approved ≡ some content
  unfolding run_calls
  run_calls-immutable store [] held spared = held
  run_calls-immutable store (call ∷ calls) held (here, later) =
      run_calls-immutable (run_call encode digest store call) calls
        (run_call-Held store call held here) later
