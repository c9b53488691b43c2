-- ===== src/Knowledge/Artifacts/Listing.antt =====
-- What enumerate_approved_artifacts of kb_mcp/adapters/filesystem_artifact_store.py returns.
use superoffice_ai_support_m.Common.{
  ◌≡◌, Bool, false, ◌&&◌, ◌||◌, ◌⊎◌, some, List, [], ◌∷◌, Text, text_eq, text_eq_iff, arith, All,
}
use superoffice_ai_support_m.Knowledge.Artifacts.Store.{Bytes, ArtifactPath, ApprovedArtifactRecord}
use superoffice_ai_support_m.Knowledge.Artifacts.Approved.{record_of, text_lt, record_lt}

-- A record is in a list.
abbrev pub Listed : ApprovedArtifactRecord → List ApprovedArtifactRecord → Type 0
Listed r [] = ⊥
Listed r (q ∷ records) = (r ≡ q) ⊎ Listed r records

-- A file that the scan reads as this record.
abbrev pub Stored : ApprovedArtifactRecord → List (ArtifactPath × Bytes) → Type 0
Stored r [] = ⊥
Stored r ((path, content) ∷ files) = (record_of path ≡ some r) ⊎ Stored r files

-- No record is larger than the next.
abbrev pub Ascending : List ApprovedArtifactRecord → Type 0
Ascending [] = Unit
Ascending (r ∷ records) = All (λ q. record_lt q r ≡ false) records × Ascending records

text_eq_sym : (s t : Text) → text_eq s t ≡ text_eq t s
text_eq_sym s t = ground (arith, text_eq_iff s t, text_eq_iff t s)

-- One component of a tuple, then the rest.
abbrev lex : Text → Text → Bool → Bool
lex s t rest = text_lt s t || (text_eq s t && rest)
