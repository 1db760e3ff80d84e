-- ===== src/Storage.antt =====
-- Where uploaded files are kept and at which addresses they are shown.
pub mod Encoding
pub mod Presign
pub mod Objects
pub mod Serving
pub mod Upload
mod Tests
