-- ===== src/Invoke.antt =====
-- pkg/invokeapi: the servers that take invocations, and the invokers that carry them out.
pub mod Invoker
pub mod Rapi
pub mod Rpc
pub mod Servers
pub mod Service
pub mod Acts
pub mod Release
pub mod Rendezvous
pub mod RpcRoundTrip
