-- ===== src/Web.antt =====
-- What pages share: escaped texts, messages that last for one redirection, and limits on requests.
pub mod HtmlEscape
pub mod Flash
pub mod RateLimit
pub mod Pagination
pub mod Form
mod Tests
