-- ===== src/ExitMonitor.antt =====
-- `zircon::sim::TestExitMonitor` (include/ElfImage.h, src/ElfImage.cc): watches the writes to
-- `tohost` for an exit code.
pub mod Laws
use zircon_sim.Prelude.{
  ℕ, zero, suc, ◌+◌, ◌*◌, ◌-◌, bit_and, bit_or, Bool, not, ◌&&◌, ◌||◌, Option, none, some, ltb,
  ◌==◌, if◌then◌else◌,
}
use zircon_sim.Word.{u32, ◌<<<◌, ◌>>>◌, bit_not}

pub record TestExitMonitor : Type 0 where
  pub tohost_address : ℕ
  pub value : ℕ

unfoldable pub init : ℕ → TestExitMonitor
init tohost_address = record { tohost_address = tohost_address; value = 0 }

unfoldable pub set_value : TestExitMonitor → ℕ → TestExitMonitor
set_value monitor value = record monitor { value = value }

-- The loop over the four strobes, from `byte` on.
unfoldable pub observe_loop : ℕ → ℕ → ℕ → ℕ → ℕ → ℕ → ℕ
observe_loop data' strobe byte_offset zero byte value = value
observe_loop data' strobe byte_offset (suc left) byte value =
    observe_loop data' strobe byte_offset left (byte + 1) (
      if not (bit_and strobe (1 <<< byte) == 0) && ltb (byte + byte_offset) 4
      then bit_or (bit_and value (bit_not 32 (0xff <<< ((byte + byte_offset) * 8))))
          (bit_and (data' >>> (byte * 8)) 0xff <<< ((byte + byte_offset) * 8))
      else value)

-- The exit code that a value of `tohost` means.
unfoldable pub exit_code : ℕ → Option ℕ
exit_code value =
    if (bit_and value 1 == 0) || (value == 0)
    then none
    else if value == 1
    then some 0
    else some (value >>> 1)

unfoldable pub observe_write : TestExitMonitor → ℕ → ℕ → ℕ → TestExitMonitor × Option ℕ
observe_write monitor address data' strobe =
    let aligned_host = bit_and monitor.tohost_address (bit_not 32 3) in
    let aligned_write = bit_and address (bit_not 32 3) in
    if not (aligned_host == aligned_write)
    then (monitor, none)
    else let value = observe_loop data' strobe (bit_and address 3) 4 0 monitor.value in
      (record monitor { value = value }, exit_code value)
