-- ===== src/RelayGrant.antt =====
-- api/internal/relaygrant: relay grants, the signed one-time permissions to use a relay.
--   Types     the requests, responses and the grant
--   Token     `sign` and `parse`, over the codec of Signing
--   Store     what the service asks of the repository
--   State     the service with its map of grants, its lookup and its write
--   Issue     `IssueWithContext`
--   Validate  `ValidateWithContext` and `RevokeWithContext`
pub mod Types
pub mod Token
pub mod Store
pub mod State
pub mod Issue
pub mod Validate
mod Tests
