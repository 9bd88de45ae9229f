-- ===== src/Spike/Laws.antt =====
-- Loads and stores of the reference against the bytes of its memory.
use zircon_sim.Prelude.{
  ℕ, ◌+◌, ◌^◌, ◌≤◌, ◌<◌, ◌≡◌, refl, ap, ◌∙◌, Bool, true, not, ◌&&◌, List, [], ◌∷◌, Option, none,
  some, arith, All, length, ◌==◌, if◌then◌else◌,
}
use zircon_sim.Word.{u32}
use zircon_sim.Memory.{SparseMemory, read8, write8}
use zircon_sim.Memory.Bytes.{IsMemory, read8-write8, write8-IsMemory}
use zircon_sim.Platform.Defs.{PlatformDevices, is_device, is_ram}
use zircon_sim.Spike.Simif.{
  SpikeBus, memory_byte, read_loop, write_loop, is_outside, load_plain, store_plain, load_region,
  store_region, mmio_load, mmio_store,
}

-- The byte at an address after a store.
abbrev pub stored : ℕ → List ℕ → ℕ → ℕ → ℕ
stored address [] b old = old
stored address (v ∷ bytes) b old = if address == b then v else stored (address + 1) bytes b old

stored_before :
    (address : ℕ) (bytes : List ℕ) (b old : ℕ) → b < address → stored address bytes b old ≡ old
stored_before address [] b old h = refl
stored_before address (v ∷ bytes) b old h = ground (arith, stored_before (address + 1) bytes b old)

write_loop-stored :
    (m : SparseMemory) (address : ℕ) (bytes : List ℕ) (b : ℕ)
    → IsMemory m
    → All (λ v. v < 256) bytes
    → address + length bytes ≤ 2 ^ 32
    → read8 (write_loop m address bytes) b ≡ stored address bytes b (read8 m b)
unfolding write_loop
write_loop-stored m address [] b h small fits = refl
write_loop-stored m address (v ∷ bytes) b h (hv, small) fits = ground (
  arith,
  write_loop-stored (write8 m (u32 address) v) (address + 1) bytes b
      (write8-IsMemory m (u32 address) v hv h) small,
  read8-write8 m (u32 address) b v h hv,
  stored_before (address + 1) bytes b v,
)

-- A memory that holds the bytes from an address on reads as those bytes.
read_loop-stored :
    (m : SparseMemory) (old : ℕ → ℕ) (address : ℕ) (bytes : List ℕ)
    → ((b : ℕ) → address ≤ b → read8 m b ≡ stored address bytes b (old b))
    → address + length bytes ≤ 2 ^ 32
    → read_loop m address (length bytes) ≡ bytes
unfolding read_loop
read_loop-stored m old address [] same fits = refl
read_loop-stored m old address (v ∷ bytes) same fits =
    let here = same address (omega arith) in
    rw (wraps, read_loop-stored m old (address + 1) bytes later (omega (arith, fits)))
      (ap (λ w. w ∷ bytes) (here ∙ (ground arith)))
  where
    wraps : u32 address ≡ address
    wraps = omega (arith, fits)

    later : (b : ℕ) → address + 1 ≤ b → read8 m b ≡ stored (address + 1) bytes b (old b)
    later b h = ground (arith, same b)

-- An access that is made to the memory itself.
abbrev pub is_plain : Option PlatformDevices → ℕ → ℕ → Bool
is_plain none address size = true
is_plain (some p) address size = not (is_device address size) && is_ram address size

abbrev pub reaches_memory : SpikeBus → ℕ → ℕ → Bool
reaches_memory s address size = not (is_outside address size) && is_plain s.platform address size

store_region-plain :
    (s : SpikeBus) (address : ℕ) (bytes : List ℕ) (p : Option PlatformDevices)
    → is_plain p address (length bytes) ≡ true
    → store_region s address bytes p ≡ store_plain s address bytes
unfolding store_region
store_region-plain s address bytes none h = refl
store_region-plain s address bytes (some p) h = ground (arith, h)

load_region-plain :
    (s : SpikeBus) (address size : ℕ) (p : Option PlatformDevices)
    → is_plain p address size ≡ true
    → load_region s address size p ≡ load_plain s address size
unfolding load_region
load_region-plain s address size none h = refl
load_region-plain s address size (some p) h = ground (arith, h)

mmio_store-plain :
    (s : SpikeBus) (address : ℕ) (bytes : List ℕ)
    → reaches_memory s address (length bytes) ≡ true
    → mmio_store s address bytes ≡ store_plain s address bytes
unfolding mmio_store
mmio_store-plain s address bytes h =
    ground (arith, h, store_region-plain s address bytes s.platform)

mmio_load-plain :
    (s : SpikeBus) (address size : ℕ)
    → reaches_memory s address size ≡ true
    → mmio_load s address size ≡ load_plain s address size
unfolding mmio_load
mmio_load-plain s address size h = ground (arith, h, load_region-plain s address size s.platform)

-- a store of bytes to the memory succeeds, a load then returns them, and every other byte is as before
pub mmio_load-mmio_store :
    (s : SpikeBus) (address : ℕ) (bytes : List ℕ)
    → IsMemory s.memory
    → All (λ v. v < 256) bytes
    → reaches_memory s address (length bytes) ≡ true
    → let (t, wrote) = mmio_store s address bytes in
      (wrote ≡ true)
      × (mmio_load t address (length bytes) ≡ (t, some bytes))
      × ((b : ℕ) → memory_byte t b ≡ stored address bytes b (memory_byte s b))
unfolding store_plain load_plain memory_byte
mmio_load-mmio_store s address bytes h small reached =
    let t = record s { memory = write_loop s.memory address bytes } in
    let fits : address + length bytes ≤ 2 ^ 32 = ground (arith, reached) in
    let same = λ (b : ℕ). write_loop-stored s.memory address bytes b h small fits in
    rw (mmio_store-plain s address bytes reached) (
      refl,
      mmio_load-plain t address (length bytes) reached
          ∙ ap (λ read. (t, some read))
              (read_loop-stored t.memory (read8 s.memory) address bytes (λ b later. same b) fits),
      same,
    )
