-- ===== src/Gateway.antt =====
-- The gateway, src/gateway: the routing table, the checks at startup, and the pipeline that every
-- tool call goes through.
pub mod Routing
pub mod Registry
pub mod Contracts
pub mod Service
