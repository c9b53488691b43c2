-- ===== src/Knowledge/Artifacts/Calls.antt =====
-- The calls of kb_mcp/adapters/filesystem_artifact_store.py that change its state, one after another.
use superoffice_ai_support_m.Common.{ℕ, Bool, List, [], ◌∷◌, Text}
use superoffice_ai_support_m.Knowledge.Artifacts.Store.{
  Bytes, CanonicalDocument, StagedArtifactToken, ArtifactStore, Write, Link, Disk,
}
use superoffice_ai_support_m.Knowledge.Artifacts.Staging.{
  stage, discard_staged, cleanup_stale_staging,
}
use superoffice_ai_support_m.Knowledge.Artifacts.Approved.{promote, remove_unreferenced}

pub data Call : Type 0 where
  stage_call : CanonicalDocument → Text → ℕ → Bool → Write → Call
  promote_call : StagedArtifactToken → CanonicalDocument → Disk → Link → Call
  discard_call : StagedArtifactToken → Bool → Call
  remove_call : Text → Text → Text → Bool → Call
  cleanup_call : ℕ → ℕ → Call

module _ (encode : Text → Bytes) (digest : Bytes → Text) where
  -- The state that a call leaves, whether it returns or raises.
  unfoldable pub run_call : ArtifactStore → Call → ArtifactStore
  unfolding stage promote discard_staged remove_unreferenced cleanup_stale_staging
  run_call store (stage_call document uuid_hex now inside write) =
      (stage encode digest store document uuid_hex now inside write).0
  run_call store (promote_call token document disk link) =
      (promote digest store token document disk link).0
  run_call store (discard_call token inside) = (discard_staged store token inside).0
  run_call store (remove_call document_type document_id content_hash inside) =
      (remove_unreferenced store document_type document_id content_hash inside).0
  run_call store (cleanup_call now max_age) = (cleanup_stale_staging store now max_age).0

  unfoldable pub run_calls : ArtifactStore → List Call → ArtifactStore
  unfolding run_call
  run_calls store [] = store
  run_calls store (call ∷ calls) = run_calls (run_call store call) calls
