-- ===== src/Knowledge/Artifacts/Store.antt =====
-- The state of kb_mcp/adapters/filesystem_artifact_store.py. The directories are two tables, of the
-- files under staging and of those three levels down under approved; empty directories and other
-- entries are not kept, since no operation reads them. What the file system does is an argument of
-- each call (`Disk`, `Write`, `Link`); unlinking succeeds.
use superoffice_ai_support_m.Common.{
  ℕ, ◌≡◌, refl, Bool, ◌&&◌, Option, none, some, List, [], ◌∷◌, Text, text_eq, Dict, remove, Result,
  ok, err, if◌then◌else◌,
}

abbrev pub Bytes : Type 0
Bytes = List ℕ

abbrev pub max_canonical_text_bytes : ℕ
max_canonical_text_bytes = 524288

pub data ArtifactError : Type 0 where
  root_not_configured root_invalid : ArtifactError
  stage_failed hash_mismatch promotion_failed cleanup_failed : ArtifactError

-- What the store reads of a CanonicalKnowledgeDocumentDTO.
pub record CanonicalDocument : Type 0 where
  pub document_id : Text
  pub document_type : Text
  pub canonical_content : Text
  pub content_hash : Text

pub record StagedArtifactToken : Type 0 where
  pub staging_id : Text
  pub document_id : Text
  pub document_type : Text
  pub content_hash : Text

pub record ApprovedArtifactRecord : Type 0 where
  pub document_type : Text
  pub document_id : Text
  pub content_hash : Text

pub record StagedFile : Type 0 where
  pub content : Bytes
  pub mtime : ℕ

-- approved/<document_type>/<document_id>/<file_name>
pub record ArtifactPath : Type 0 where
  pub document_type : Text
  pub document_id : Text
  pub file_name : Text

pub record ArtifactStore : Type 0 where
  pub is_configured : Bool
  pub staging : Dict StagedFile
  pub approved : List (ArtifactPath × Bytes)

-- Creating a file: all of it, some of it before an error, or an error before any of it.
pub data Write : Type 0 where
  written refused : Write
  torn : Bytes → Write

-- os.link and, where hard links are not supported, the copy; `raced` where another process made the
-- destination first.
pub data Link : Type 0 where
  linked : Link
  copied : Write → Link
  raced : Bytes → Link

-- Whether a path resolves to a place inside its directory, and whether files can be read.
pub record Disk : Type 0 where
  pub inside : Bool
  pub reads_staged : Bool
  pub reads_existing : Bool

abbrev pub Outcome : Type 0 → Type 0
Outcome A = ArtifactStore × Result ArtifactError A

-- What follows a call that may raise, in the state that the call leaves.
abbrev pub after : {A B : Type 0} → Outcome A → (ArtifactStore → A → Outcome B) → Outcome B
after (store, err e) next = (store, err e)
after (store, ok a) next = next store a

unfoldable pub path_eq : ArtifactPath → ArtifactPath → Bool
path_eq p q =
    text_eq p.document_type q.document_type
    && text_eq p.document_id q.document_id
    && text_eq p.file_name q.file_name

unfoldable pub find_file : ArtifactPath → List (ArtifactPath × Bytes) → Option Bytes
unfolding path_eq
find_file p [] = none
find_file p ((q, content) ∷ files) = if path_eq q p then some content else find_file p files

unfoldable pub remove_file :
    ArtifactPath → List (ArtifactPath × Bytes) → List (ArtifactPath × Bytes)
unfolding path_eq
remove_file p [] = []
remove_file p ((q, content) ∷ files) =
    let rest = remove_file p files in if path_eq q p then rest else (q, content) ∷ rest

-- Path.unlink of a staged file
unfoldable pub unlink_staged : Text → ArtifactStore → ArtifactStore
unlink_staged staging_id store = record store { staging = remove staging_id store.staging }

-- A file that is not there yet is created under approved.
unfoldable pub create_file : ArtifactPath → Bytes → ArtifactStore → ArtifactStore
create_file path content store = record store { approved = (path, content) ∷ store.approved }

-- A call that raises where a check finds a reason.
abbrev pub unless : {A : Type 0} → Option ArtifactError → ArtifactStore → Outcome A → Outcome A
unless none store call = call
unless (some e) store call = (store, err e)

pub unless-preserves :
    {A : Type 0} (P : ArtifactStore → Type 0) (found : Option ArtifactError) (store : ArtifactStore)
    (call : Outcome A)
    → P store
    → P call.0
    → P (unless found store call).0
unless-preserves P none store call here there = there
unless-preserves P (some e) store call here there = here

-- What holds of the state that the first call leaves, and of each state that the rest makes of it.
pub after-preserves :
    {A B : Type 0} (P : ArtifactStore → Type 0) (outcome : Outcome A)
    (next : ArtifactStore → A → Outcome B)
    → P outcome.0
    → ((a : A) → outcome.1 ≡ ok a → P (next outcome.0 a).0)
    → P (after outcome next).0
after-preserves P (store, err e) next here there = here
after-preserves P (store, ok a) next here there = there a refl
