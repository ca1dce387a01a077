-- ===== src/Bff/Failures.antt =====
-- The statuses for failures of the services behind the REST service.
use are_foundation.Base.{◌≤◌, arith}
use are_foundation.Bff.Delegate.{Code, Failure, status, missing, other, upstream_http}

pub upstream_http-ge : (e : Failure) → 400 ≤ upstream_http e
unfolding upstream_http
upstream_http-ge (status Code.ok m) = omega arith
upstream_http-ge (status Code.canceled m) = omega arith
upstream_http-ge (status Code.unknown m) = omega arith
upstream_http-ge (status Code.invalid_argument m) = omega arith
upstream_http-ge (status Code.deadline_exceeded m) = omega arith
upstream_http-ge (status Code.not_found m) = omega arith
upstream_http-ge (status Code.already_exists m) = omega arith
upstream_http-ge (status Code.permission_denied m) = omega arith
upstream_http-ge (status Code.resource_exhausted m) = omega arith
upstream_http-ge (status Code.failed_precondition m) = omega arith
upstream_http-ge (status Code.aborted m) = omega arith
upstream_http-ge (status Code.out_of_range m) = omega arith
upstream_http-ge (status Code.unimplemented m) = omega arith
upstream_http-ge (status Code.internal m) = omega arith
upstream_http-ge (status Code.unavailable m) = omega arith
upstream_http-ge (status Code.data_loss m) = omega arith
upstream_http-ge (status Code.unauthenticated m) = omega arith
upstream_http-ge missing = omega arith
upstream_http-ge other = omega arith
