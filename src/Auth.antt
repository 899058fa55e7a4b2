-- ===== src/Auth.antt =====
-- auth/: tokens, the bearer header, and who a request comes from.
pub mod Tokens
pub mod Bearer
pub mod Admin
