-- ===== src/Config.antt =====
-- pkg/config: the configuration that the daemon and the server read from their environment.
pub mod Util
pub mod Rapid
pub mod ChildEnv
pub mod Credentials
pub mod Server
