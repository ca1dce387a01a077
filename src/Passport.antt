-- ===== src/Passport.antt =====
-- The passport issuance engine, s0/passport-issuance-engine.
pub mod Model
pub mod Service
pub mod Grpc
pub mod Consistent
pub mod Reach
pub mod Cases
pub mod Issue
pub mod Errors
pub mod Verify
pub mod Replies
pub mod Local
pub mod RoundTrip
mod Examples
