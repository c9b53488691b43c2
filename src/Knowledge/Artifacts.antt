-- ===== src/Knowledge/Artifacts.antt =====
-- kb_mcp/adapters/filesystem_artifact_store.py: the content-addressed store of approved documents.
-- `encode`
-- is str.encode("utf-8") and `digest` the hexadecimal SHA-256, both arguments.
pub mod Names
pub mod Root
pub mod Places
pub mod Store
pub mod Staging
pub mod Approved
pub mod Calls
pub mod Addressed
pub mod Immutable
pub mod Promotion
pub mod Torn
pub mod Listing
pub mod Tokens
