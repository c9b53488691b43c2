-- ===== src/Knowledge.antt =====
-- servers/knowledge: the admission of sources to the corpus, and the windows of long sections.
pub mod Chunking
pub mod Normalization
pub mod Admission
pub mod Artifacts
pub mod Canonical
pub mod Eligibility
