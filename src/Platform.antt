-- ===== src/Platform.antt =====
-- `zircon::sim::PlatformDevices` (include/PlatformDevices.h, src/PlatformDevices.cc): the CLINT
-- timer and the UART behind the device addresses.
pub mod Defs
pub mod Bus
pub mod State
pub mod Timer
pub mod Uart
pub mod Restore
