-- ===== src/Access.antt =====
-- How a request gets past the filters: who it is from, which route it asks for, and who may.
pub mod Routes
pub mod Rbac
pub mod Authentication
pub mod Csrf
pub mod Sessions
mod Tests
