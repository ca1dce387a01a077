-- ===== src/Gateway.antt =====
-- The API gateway: sx/are-api-gateway/internal/gateway.
pub mod Model
pub mod Routes
pub mod Server
pub mod Simulator
pub mod Issuing
pub mod Decisions
pub mod Tracing
pub mod Cors
pub mod Labels
pub mod Opa
pub mod Readiness
pub mod Headers
pub mod Propagation
pub mod Guards
pub mod Proxy
pub mod Replay
pub mod Grants
mod Examples
