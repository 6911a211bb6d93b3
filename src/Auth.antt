-- ===== src/Auth.antt =====
-- Who is behind a request: the files of backend/src/auth that let a caller in.
pub mod Guards
pub mod Login
pub mod Laws
