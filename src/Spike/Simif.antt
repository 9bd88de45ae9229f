-- ===== src/Spike/Simif.antt =====
-- The memory side of the reference (src/SpikeReference.cc): `Impl` as the `simif_t` that the processor
-- model reads and writes through, with a memory and devices of its own.
use zircon_sim.Prelude.{
  ℕ, zero, suc, ◌+◌, ◌-◌, ◌^◌, Bool, true, false, not, ◌&&◌, ◌||◌, List, [], ◌∷◌, Option, none,
  some, ltb, leb, length, if◌then◌else◌,
}
use zircon_sim.Word.{u32}
use zircon_sim.Memory.{SparseMemory, read8, write8}
use zircon_sim.Platform.Defs.{PlatformDevices, append_uart_input, is_device, is_ram}
use zircon_sim.Platform.Bus
use zircon_sim.Platform.Bus.{set_time}

-- `memory_` and `platform_`.
pub record SpikeBus : Type 0 where
  pub memory : SparseMemory
  pub platform : Option PlatformDevices

abbrev pub reservable : ℕ → Bool
reservable address = leb 0x80000000 address && ltb address 0xa0000000

unfoldable pub memory_byte : SpikeBus → ℕ → ℕ
memory_byte s address = read8 s.memory address

unfoldable pub read_loop : SparseMemory → ℕ → ℕ → List ℕ
read_loop m address zero = []
read_loop m address (suc left) = read8 m (u32 address) ∷ read_loop m (address + 1) left

unfoldable pub write_loop : SparseMemory → ℕ → List ℕ → SparseMemory
write_loop m address [] = m
write_loop m address (b ∷ bytes) = write_loop (write8 m (u32 address) b) (address + 1) bytes

-- `address > max || size > 8 || address + size > 2 ^ 32`; after the first test the sum cannot wrap.
abbrev pub is_outside : ℕ → ℕ → Bool
is_outside address size = ltb (2 ^ 32 - 1) address || ltb 8 size || ltb (2 ^ 32) (address + size)

abbrev pub on_devices : SpikeBus → PlatformDevices × Option (List ℕ) → SpikeBus × Option (List ℕ)
on_devices s (p, value) = (record s { platform = some p }, value)

-- The accesses to the memory itself.
unfoldable pub load_plain : SpikeBus → ℕ → ℕ → SpikeBus × Option (List ℕ)
unfolding read_loop
load_plain s address size = (s, some (read_loop s.memory address size))

unfoldable pub store_plain : SpikeBus → ℕ → List ℕ → SpikeBus × Bool
unfolding write_loop
store_plain s address bytes = (record s { memory = write_loop s.memory address bytes }, true)

-- With devices, an access that is neither theirs nor to the main memory fails.
unfoldable pub load_region : SpikeBus → ℕ → ℕ → Option PlatformDevices → SpikeBus × Option (List ℕ)
unfolding load_plain
load_region s address size none = load_plain s address size
load_region s address size (some p) =
    if is_device address size
    then on_devices s (Bus.read false address size p)
    else if not (is_ram address size)
    then (s, none)
    else load_plain s address size

-- The bytes of a load, unless it returns false.
unfoldable pub mmio_load : SpikeBus → ℕ → ℕ → SpikeBus × Option (List ℕ)
unfolding load_region
mmio_load s address size =
    if is_outside address size then (s, none) else load_region s address size s.platform

abbrev pub is_done : Option (Unit {0}) → Bool
is_done none = false
is_done (some done) = true

abbrev pub devices_wrote : SpikeBus → PlatformDevices × Option (Unit {0}) → SpikeBus × Bool
devices_wrote s (p, wrote) = (record s { platform = some p }, is_done wrote)

unfoldable pub store_region : SpikeBus → ℕ → List ℕ → Option PlatformDevices → SpikeBus × Bool
unfolding store_plain
store_region s address bytes none = store_plain s address bytes
store_region s address bytes (some p) =
    if is_device address (length bytes)
    then devices_wrote s (Bus.write false address (length bytes) bytes p)
    else if not (is_ram address (length bytes))
    then (s, false)
    else store_plain s address bytes

-- A store of `length bytes` bytes.
unfoldable pub mmio_store : SpikeBus → ℕ → List ℕ → SpikeBus × Bool
unfolding store_region
mmio_store s address bytes =
    if is_outside address (length bytes)
    then (s, false)
    else store_region s address bytes s.platform

unfoldable pub set_bus_time : SpikeBus → ℕ → SpikeBus
set_bus_time s value = elim s.platform [
  | none ↦ s
  | some p ↦ record s { platform = some (set_time p value) }
]

unfoldable pub append_bus_input : SpikeBus → List ℕ → SpikeBus
append_bus_input s input = elim s.platform [
  | none ↦ s
  | some p ↦ record s { platform = some (append_uart_input p input) }
]
