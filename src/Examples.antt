-- ===== src/Examples.antt =====
-- Concrete inputs for the theorems: a small policy, limiter, plan, aggregation and service.
mod Policies
mod Limits
mod Plans
mod Findings
mod Gateways
mod Requests
mod Timelines
mod Columns
mod Sources
mod Artifacts
mod Tokens
mod Documents
