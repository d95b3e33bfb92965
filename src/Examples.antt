-- ===== src/Examples.antt =====
-- Concrete inputs at which the theorems apply, by the part of the program that they are about.
mod Runtimes
mod Registers
mod Daemons
mod Settings
mod Messages
mod Destinations
mod Services
mod Closings
mod Consumers
