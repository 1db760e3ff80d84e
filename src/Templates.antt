-- ===== src/Templates.antt =====
-- The pages that visitors see: the names, the download and the catalogue of front-end templates.
pub mod Slug
pub mod Curated
pub mod Store
pub mod Catalog
mod Plain
mod Tests
