-- ===== src/Axi.antt =====
-- `AXIMemory` (include/AXIMemory.h, src/AXIMemory.cc): the memory and device side of the core's AXI
-- bus.
pub mod Defs
pub mod Drive
pub mod Update
pub mod State
pub mod Restore
pub mod Protocol
pub mod Cycle
pub mod Handshakes
pub mod Bursts
