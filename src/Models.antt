-- ===== src/Models.antt =====
-- api/internal/models/models.go: the data that the repository stores, one record for each struct.
-- The string types of the statuses are texts, as in the source.
pub mod Values
pub mod Accounts
pub mod Fleet
pub mod Logs
pub mod Policies
pub mod Builds
