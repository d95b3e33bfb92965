-- ===== src/Extensions.antt =====
-- pkg/runtimeapi/extensionsapi.go: the Extensions API and the handles of the Extensions.
pub mod Slice
pub mod Api
pub mod Register
pub mod Next
pub mod Subscriptions
pub mod Registration
pub mod Lifecycle
pub mod Retry
pub mod Preservation
pub mod Identity
