-- ===== src/BuildHandlers.antt =====
-- The handlers of api/internal/builds/handler.go over the memory repository. What a handler reads of
-- a path (its number) is an argument.
pub mod Profiles
pub mod Jobs
pub mod Reading
pub mod Handed
pub mod Agreement
mod Tests
