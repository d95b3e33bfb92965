-- ===== src/Runtime.antt =====
-- pkg/runtimeapi: the Runtime API.
pub mod Api
pub mod Handlers
pub mod Delivery
pub mod Traces
pub mod Instances
pub mod Census
pub mod Stranded
pub mod Spent
pub mod Firing
pub mod Capacity
pub mod Refinement
pub mod Startup
pub mod Waiting
pub mod InstanceEnv
pub mod SharedArray
