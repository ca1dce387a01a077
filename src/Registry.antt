-- ===== src/Registry.antt =====
-- The agent registry: s0/agent-registry-service/internal.
pub mod Model
pub mod Domain
pub mod Tables
pub mod Repository
pub mod Listing
pub mod Service
pub mod Outbox
pub mod Grpc
pub mod Statements
pub mod Cases
pub mod Admission
pub mod Invariant
pub mod Lifecycle
pub mod Results
pub mod Updates
pub mod Backoff
pub mod Rows
pub mod Pages
pub mod Delivery
pub mod Waiting
pub mod Drain
pub mod Examples
