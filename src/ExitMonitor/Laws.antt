-- ===== src/ExitMonitor/Laws.antt =====
-- When the monitor reports an exit, and with which code.
use zircon_sim.Prelude.{
  ℕ, zero, suc, ◌+◌, ◌*◌, ◌/◌, ◌%◌, ◌^◌, ◌<◌, ◌-◌, ◌≢◌, ◌≡◌, refl, none, some, arith, ◌==◌,
  if◌then◌else◌, bit_and,
}
use zircon_sim.Word.Field.{bit_and_split, bit_and-zero, bit_and_ones}
use zircon_sim.Word.Table.{bit_and_low}
use zircon_sim.Word.Bytes.{mask_lane}
use zircon_sim.Memory.{SparseMemory, word_at, merge_loop, write32}
use zircon_sim.Memory.Access.{write32_word}
use zircon_sim.ExitMonitor.{TestExitMonitor, observe_loop, exit_code, observe_write}

-- `x & ~3` on a `uint32_t`.
pub align4 : (a : ℕ) → a < 2 ^ 32 → bit_and a 0xffff_fffc ≡ a / 4 * 4
align4 a h = ground (
  arith,
  bit_and_split 2 (a / 4) (2 ^ 30 - 1) (a % 4) 0,
  bit_and_ones 30 (a / 4),
  bit_and-zero 2 (a % 4),
)

-- An exit is reported exactly for an odd value, and its code is the value shifted right by one.
pub exit_code_lem :
    (value : ℕ) → exit_code value ≡ (if value % 2 == 1 then some (value / 2) else none)
unfolding exit_code
exit_code_lem value = ground (arith, bit_and_low 1 value)

-- A write outside the watched word reports nothing and leaves the monitor as it was.
pub observe_write_elsewhere :
    (m : TestExitMonitor) (address data' strobe : ℕ)
    → m.tohost_address < 2 ^ 32
    → address < 2 ^ 32
    → m.tohost_address / 4 ≢ address / 4
    → observe_write m address data' strobe ≡ (m, none)
unfolding observe_write
observe_write_elsewhere m address data' strobe hm ha ne =
    ground (arith, align4 m.tohost_address, align4 address)

-- On a word write the monitor's loop is the loop of `SparseMemory::write32`.
observe_loop-merge_loop :
    (data' strobe left byte value : ℕ)
    → byte + left ≡ 4
    → observe_loop data' strobe 0 left byte value ≡ merge_loop data' strobe left byte value
unfolding observe_loop merge_loop
observe_loop-merge_loop data' strobe zero byte value e = refl
observe_loop-merge_loop data' strobe (suc left) byte value e = ground (
  arith,
  mask_lane (byte * 8) data',
  bit_and_low 8 (data' / 2 ^ (byte * 8)),
  observe_loop-merge_loop data' strobe left (byte + 1) value,
  observe_loop-merge_loop data' strobe left (byte + 1) (merge_loop data' strobe 1 byte value),
)

-- The monitor mirrors memory: if its value is the word at `tohost`, it still is after any
-- word-aligned store that both see, at `tohost` or elsewhere.
pub observe_write-write32 :
    (m : TestExitMonitor) (mem : SparseMemory) (address data' strobe : ℕ)
    → m.tohost_address < 2 ^ 32
    → address < 2 ^ 32
    → address % 4 ≡ 0
    → m.value ≡ word_at mem (m.tohost_address / 4)
    → (observe_write m address data' strobe).0.value
      ≡ word_at (write32 mem address data' strobe) (m.tohost_address / 4)
unfolding observe_write
observe_write-write32 m mem address data' strobe hm ha aligned same = ground (
  arith,
  align4 m.tohost_address,
  align4 address,
  bit_and_low 2 address,
  write32_word mem address data' strobe (m.tohost_address / 4),
  observe_loop-merge_loop data' strobe 4 0 m.value,
)
