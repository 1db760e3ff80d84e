-- ===== src/Jwt.antt =====
-- include/helpers/JwtHelper.h: base64url, and HS256 tokens.
pub mod Base64
pub mod Library
pub mod Token
