-- ===== src/Models.antt =====
-- The classes of models/, one module each.
pub mod Field
pub mod Users
pub mod Roles
pub mod Permissions
pub mod Settings
mod Tests
