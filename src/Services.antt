-- ===== src/Services.antt =====
-- services/: the operations that the controllers call.
pub mod Bcrypt
pub mod Mapper
pub mod UserRows
pub mod Auth
pub mod Users
pub mod Roles
pub mod Permissions
mod Tests
pub mod Settings
