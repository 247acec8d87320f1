-- ===== src/Auth.antt =====
-- Credentials for remotes: crates/akua-core/src/host_auth.rs and crates/akuapkg-cli/src/auth_parse.rs.
pub mod HostAuth
pub mod AuthParse
mod Tests
