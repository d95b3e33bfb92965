-- ===== src/Process.antt =====
-- pkg/process: the processes that the daemon starts, signals and reaps.
pub mod Manager
pub mod Signals
pub mod Shutdown
pub mod Killed
pub mod Restraint
pub mod Proc
pub mod Lookup
pub mod Tcp
pub mod HexAddress
pub mod TextSearch
pub mod Sockets
