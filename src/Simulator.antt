-- ===== src/Simulator.antt =====
-- `Simulator` (include/Simulator.h, src/Simulator.cc): an RV32IM interpreter.
pub mod Alu
pub mod Decode
pub mod Step
pub mod Immediates
pub mod Bounds
pub mod Laws
