-- ===== src/Logging.antt =====
-- pkg/logging: the handlers of the two logging back ends.
pub mod Handlers
pub mod Backends
