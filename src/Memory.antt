-- ===== src/Memory.antt =====
-- `zircon::sim::SparseMemory` (include/ElfImage.h, src/ElfImage.cc): 32-bit words under their word
-- index. The `unordered_map` is an association list; its order is observed by `save` only.
pub mod Table
pub mod Bytes
pub mod Access
pub mod Reads
pub mod Load
pub mod State
use zircon_sim.Prelude.{
  ℕ, zero, suc, ◌+◌, ◌*◌, bit_and, bit_or, List, [], ◌∷◌, Bool, not, Option, none, some, ◌==◌,
  if◌then◌else◌,
}
use zircon_sim.Word.{u8, u32, ◌<<<◌, ◌>>>◌, bit_not, put_byte}
use Table.{Words, find, upsert}

pub record SparseMemory : Type 0 where
  pub words : Words

unfoldable pub empty : SparseMemory
empty = record { words = [] }

-- The word under an index; an index that was never written reads as zero.
unfoldable pub word_at : SparseMemory → ℕ → ℕ
word_at m index = elim (find index m.words) [ none ↦ 0 | some word ↦ word ]

unfoldable pub read8 : SparseMemory → ℕ → ℕ
read8 m address = u8 (word_at m (address >>> 2) >>> (bit_and address 3 * 8))

-- `value |= read8(address + byte) << (byte * 8)` for the rounds left, from `byte` on.
unfoldable pub read_loop : SparseMemory → ℕ → ℕ → ℕ → ℕ → ℕ
read_loop m address zero byte value = value
read_loop m address (suc left) byte value =
    read_loop m address left (byte + 1)
      (bit_or value (read8 m (u32 (address + byte)) <<< (byte * 8)))

unfoldable pub read32 : SparseMemory → ℕ → ℕ
read32 m address =
    if bit_and address 3 == 0 then word_at m (address >>> 2) else read_loop m address 4 0 0

unfoldable pub read64 : SparseMemory → ℕ → ℕ
read64 m address =
    if bit_and address 7 == 0
    then bit_or (read32 m address) (read32 m (u32 (address + 4)) <<< 32)
    else read_loop m address 8 0 0

unfoldable pub write8 : SparseMemory → ℕ → ℕ → SparseMemory
write8 m address value = record m {
  words =
      upsert (address >>> 2) (put_byte 32 (bit_and address 3 * 8) value (word_at m (address >>> 2)))
        m.words;
}

-- `(strobe & (1u << byte)) != 0`
abbrev pub strobed : ℕ → ℕ → Bool
strobed strobe byte = not (bit_and strobe (1 <<< byte) == 0)

-- The aligned loop of `write32`, on the word itself.
unfoldable pub merge_loop : ℕ → ℕ → ℕ → ℕ → ℕ → ℕ
merge_loop value strobe zero byte word = word
merge_loop value strobe (suc left) byte word = merge_loop value strobe left (byte + 1) (
    if strobed strobe byte
    then bit_or (bit_and word (bit_not 32 (0xff <<< (byte * 8))))
        (bit_and value (0xff <<< (byte * 8)))
    else word)

-- The byte loop of `write32` off alignment, and of `write64`.
unfoldable pub write_loop : ℕ → ℕ → ℕ → ℕ → ℕ → SparseMemory → SparseMemory
write_loop address value strobe zero byte m = m
write_loop address value strobe (suc left) byte m =
    write_loop address value strobe left (byte + 1) (
      if strobed strobe byte
      then write8 m (u32 (address + byte)) (u8 (value >>> (byte * 8)))
      else m)

unfoldable pub write32 : SparseMemory → ℕ → ℕ → ℕ → SparseMemory
write32 m address value strobe =
    if bit_and address 3 == 0
    then record m {
      words =
          upsert (address >>> 2) (merge_loop value strobe 4 0 (word_at m (address >>> 2))) m.words;
    }
    else write_loop address value strobe 4 0 m

unfoldable pub write64 : SparseMemory → ℕ → ℕ → ℕ → SparseMemory
write64 m address value strobe = write_loop address value strobe 8 0 m

-- `load`: byte `i` of the buffer goes to `address + i`.
unfoldable pub load_loop : ℕ → List ℕ → ℕ → SparseMemory → SparseMemory
load_loop address [] byte m = m
load_loop address (b ∷ bytes) byte m =
    load_loop address bytes (byte + 1) (write8 m (u32 (address + u32 byte)) b)

unfoldable pub load : SparseMemory → ℕ → List ℕ → SparseMemory
load m address bytes = load_loop address bytes 0 m
