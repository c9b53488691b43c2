-- ===== src/Knowledge/Artifacts/Names.antt =====
-- The names that kb_mcp/adapters/filesystem_artifact_store.py accepts, and the bounds of
-- kb_mcp/contracts/constants.py that they are made from.
use superoffice_ai_support_m.Common.{
  ℕ, Bool, ◌&&◌, ◌||◌, List, [], ◌∷◌, Text, codes, text_eq, leb, length, ◌==◌, all, take, drop,
  starts_with, drop_newline,
}

abbrev pub allowed_document_types : List Text
allowed_document_types =
    codes "documentation"
    ∷ codes "sop"
    ∷ codes "runbook"
    ∷ codes "known_issue"
    ∷ codes "incident_pattern"
    ∷ []

-- [0-9a-f]
unfoldable pub is_hex : ℕ → Bool
is_hex c = (leb b'0' c && leb c b'9') || (leb b'a' c && leb c b'f')

-- ^[0-9a-f]{64}$
unfoldable pub matches_content_hash : Text → Bool
unfolding is_hex drop_newline
matches_content_hash s = let word = drop_newline s in all is_hex word && length word == 64

-- ^doc_[0-9a-f]{24}$
unfoldable pub matches_document_id : Text → Bool
unfolding is_hex drop_newline starts_with
matches_document_id s =
    let word = drop_newline s in
    starts_with word (codes "doc_") && all is_hex (drop 4 word) && length word == 28

-- ^doc_[0-9a-f]{24}_[0-9a-f]{32}\.tmp$
unfoldable pub matches_staging_id : Text → Bool
unfolding is_hex drop_newline starts_with
matches_staging_id s =
    let word = drop_newline s in
    starts_with word (codes "doc_")
    && all is_hex (take 24 (drop 4 word))
    && starts_with (drop 28 word) (codes "_")
    && all is_hex (take 32 (drop 29 word))
    && text_eq (drop 61 word) (codes ".tmp")
