-- ===== src/Examples/Artifacts.antt =====
-- A small store of kb_mcp/adapters/filesystem_artifact_store.py.
use superoffice_ai_support_m.Common.{
  ◌≢◌, lookup, ok, text_eq_iff, ◌≡◌, refl, true, some, none, List, [], ◌∷◌, map, Text, codes, err,
  text_eq, member, strip,
}
use superoffice_ai_support_m.Knowledge.Artifacts.Root.{as_text, validate_artifact_root}
use superoffice_ai_support_m.Knowledge.Artifacts.Places.{
  validate_artifact_root-IsSafeRoot, IsSafeRoot, IsNamed, IsResolved,
}
use superoffice_ai_support_m.Knowledge.Artifacts.Store.{
  Bytes, CanonicalDocument, ArtifactStore, StagedArtifactToken, linked, copied, torn, written,
  find_file, promotion_failed,
}
use superoffice_ai_support_m.Knowledge.Artifacts.Staging.{staging_name, token_of}
use superoffice_ai_support_m.Knowledge.Artifacts.Approved.{
  dest_path, promote, check_promotion, approved_record, artifact_path,
}
use superoffice_ai_support_m.Knowledge.Artifacts.Calls.{
  Call, stage_call, promote_call, cleanup_call, remove_call, run_calls,
}
use superoffice_ai_support_m.Knowledge.Artifacts.Addressed.{IsAddressed, run_calls-IsAddressed}
use superoffice_ai_support_m.Knowledge.Artifacts.Immutable.{run_calls-immutable}
use superoffice_ai_support_m.Knowledge.Artifacts.Promotion.{sound_disk}
use superoffice_ai_support_m.Knowledge.Artifacts.Torn.{promote_torn}

abbrev pub same_text : Text → Bytes
same_text s = s

abbrev pub zeros : Text
zeros = codes "0000000000000000000000000000000000000000000000000000000000000000"

abbrev ones : Text
ones = codes "1111111111111111111111111111111111111111111111111111111111111111"

-- Two hashes: of the empty file, and of the others.
abbrev pub small_digest : Bytes → Text
small_digest [] = ones
small_digest (c ∷ bytes) = zeros

abbrev pub uuid : Text
uuid = codes "0123456789abcdef0123456789abcdef"

abbrev guide : CanonicalDocument
guide = record {
  document_id = codes "doc_0123456789abcdef01234567";
  document_type = codes "sop";
  canonical_content = codes "restart";
  content_hash = zeros;
}

abbrev pub empty_store : ArtifactStore
empty_store = record { is_configured = true; staging = []; approved = [] }

abbrev filled_store : ArtifactStore
filled_store = record {
  is_configured = true;
  staging = [];
  approved = (dest_path guide, codes "restart") ∷ [];
}

abbrev calls : List Call
calls =
    stage_call guide uuid 10 true written
    ∷ promote_call (token_of guide (staging_name guide uuid)) guide sound_disk linked
    ∷ cleanup_call 9000 3600
    ∷ []

run_calls-IsAddressed_example :
    IsAddressed same_text small_digest (run_calls same_text small_digest empty_store calls)
run_calls-IsAddressed_example =
    run_calls-IsAddressed same_text small_digest empty_store calls tt (tt, (tt, (tt, tt)))

run_calls-immutable_example :
    find_file
      (dest_path guide)
      (run_calls same_text small_digest filled_store
        (remove_call (codes "sop") guide.document_id ones true ∷ calls)).approved
    ≡ some (codes "restart")
unfolding find_file dest_path text_eq artifact_path
run_calls-immutable_example =
    run_calls-immutable same_text small_digest (dest_path guide) (codes "restart") filled_store
      (remove_call (codes "sop") guide.document_id ones true ∷ calls) refl
      (refl, (tt, (tt, (tt, tt))))

-- The guide is staged and not yet promoted.
abbrev staged_guide : ArtifactStore
staged_guide = record {
  is_configured = true;
  staging = (staging_name guide uuid, record { content = codes "restart"; mtime = 10 }) ∷ [];
  approved = [];
}

abbrev guide_token : StagedArtifactToken
guide_token = token_of guide (staging_name guide uuid)

torn_hash : small_digest [] ≢ zeros
unfolding text_eq
torn_hash e = let k = (text_eq_iff ones zeros).1 e in cc k

promote_torn_example :
    ((promote small_digest staged_guide guide_token guide sound_disk (copied (torn []))).1
      ≡ err promotion_failed)
    × ((promote small_digest
          (run_calls same_text small_digest
            (promote small_digest staged_guide guide_token guide sound_disk (copied (torn []))).0
            calls)
          guide_token
          guide
          sound_disk
          linked).1
        ≢ ok (approved_record guide))
unfolding check_promotion lookup find_file text_eq token_of staging_name
promote_torn_example =
    promote_torn same_text small_digest guide [] torn_hash staged_guide guide_token
      (record { content = codes "restart"; mtime = 10 }) refl refl refl refl calls
      (tt, (tt, (tt, tt))) guide_token sound_disk linked (approved_record guide)

-- Paths as texts: one part for each character.
abbrev letters : Text → List Text
letters path = map (λ c. c ∷ []) path

validate_artifact_root-IsSafeRoot_example :
    ((candidate : Text) × IsNamed same_text same_text
        (λ _. true)
        some
        letters
        same_text
        (as_text (codes " /srv/kb"))
        candidate
      × IsResolved same_text same_text
          (λ _. true)
          some
          letters
          same_text
          candidate
          (codes "/srv/kb"))
    × IsSafeRoot same_text same_text
        (λ _. true)
        some
        letters
        same_text
        (some (codes "/repo"))
        (codes "/srv/kb")
unfolding validate_artifact_root strip member text_eq
validate_artifact_root-IsSafeRoot_example =
    validate_artifact_root-IsSafeRoot same_text same_text (λ _. true) some letters same_text
      (as_text (codes " /srv/kb")) (some (codes "/repo")) none refl
