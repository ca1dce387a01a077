-- ===== src/Bff.antt =====
-- The REST service behind the gateway: sx/s0s1-rest-bff/internal.
pub mod Model
pub mod Memory
pub mod Postgres
pub mod Responses
pub mod Delegate
pub mod Register
pub mod Agents
pub mod Issue
pub mod Policy
pub mod Grants
pub mod Handler
pub mod Calls
pub mod Related
pub mod Laws
pub mod Failures
pub mod Replay
pub mod Demo
pub mod Scopes
pub mod Services
pub mod Registrations
pub mod Refusals
pub mod Composed
pub mod Entry
pub mod Through
pub mod Refines
pub mod Effects
pub mod Consistent
pub mod Issued
mod Examples
mod Requests
