-- ===== src/Word.antt =====
-- Machine words as native numbers: the casts, shifts and masks of C++ on `uint8_t`, `uint32_t`
-- and `uint64_t`.
pub mod Step
pub mod Field
pub mod Table
pub mod Bytes
pub mod Xor
use zircon_sim.Prelude.{ℕ, ◌+◌, ◌-◌, ◌*◌, ◌/◌, ◌%◌, ◌^◌, bit_and, bit_or}

abbrev pub u8 : ℕ → ℕ
u8 n = n % 2 ^ 8

abbrev pub u32 : ℕ → ℕ
u32 n = n % 2 ^ 32

abbrev pub u64 : ℕ → ℕ
u64 n = n % 2 ^ 64

infixl 75 ◌<<<◌ ◌>>>◌
abbrev pub ◌<<<◌ : ℕ → ℕ → ℕ
x <<< k = x * 2 ^ k

abbrev pub ◌>>>◌ : ℕ → ℕ → ℕ
x >>> k = x / 2 ^ k

-- `~x` on a word of `w` bits.
abbrev pub bit_not : ℕ → ℕ → ℕ
bit_not w x = 2 ^ w - 1 - x

-- `(word & ~(0xff << shift)) | (value << shift)` on a word of `w` bits, the byte store of
-- `SparseMemory::write8`, `PlatformDevices::writeByte` and `TestExitMonitor::observeWrite`.
unfoldable pub put_byte : ℕ → ℕ → ℕ → ℕ → ℕ
put_byte w shift value word =
    bit_or (bit_and word (bit_not w ((0xff <<< shift) % 2 ^ w))) ((value <<< shift) % 2 ^ w)
