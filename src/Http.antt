-- ===== src/Http.antt =====
-- shared/platform-http: the client that the adapters send their requests with.
pub mod Client
