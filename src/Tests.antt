-- ===== src/Tests.antt =====
-- The theorems at concrete inputs.
mod Storage
mod Devices
mod Bus
mod Programs
mod Commands
mod Registers
mod Runs
mod Cpu
mod Reference
mod Sessions
