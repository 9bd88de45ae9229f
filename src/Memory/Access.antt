-- ===== src/Memory/Access.antt =====
-- The wide accesses against the byte view: `write32`, `write64` and `load` at every alignment are
-- byte writes, `read32` and `read64` at every alignment are the little-endian bytes.
use zircon_sim.Prelude.{
  ℕ, zero, suc, ◌+◌, ◌-◌, ◌/◌, ◌%◌, ◌^◌, ◌<◌, ◌≤◌, ◌≡◌, refl, true, ◌&&◌, arith, ltb, leb, ◌==◌,
  if◌then◌else◌, Bool-cases, inl, inr,
}
use zircon_sim.Word.{u32}
use zircon_sim.Word.Table.{bit_and_low}
use zircon_sim.Word.Bytes.{byte_of, byte_of-put_byte, put_byte-lt, merge_lane}
use zircon_sim.Memory.{
  SparseMemory, word_at, read8, strobed, merge_loop, write_loop, write32, write64,
}
use zircon_sim.Memory.Bytes.{
  IsMemory, word_at-lt, word_at-upsert, read8_lem, read8-write8, write8-IsMemory,
}

-- How far `b` lies behind `a`, as `uint32_t` subtraction.
abbrev pub distance : ℕ → ℕ → ℕ
distance a b = (b + 2 ^ 32 - a) % 2 ^ 32

-- The byte at distance `d` of a store of `size` bytes: the store's byte if its strobe is set.
abbrev pub stored : ℕ → ℕ → ℕ → ℕ → ℕ → ℕ
stored size strobe value d old = if ltb d size && strobed strobe d then byte_of d value else old

-- One round of the aligned loop.
merge_step :
    (value strobe i j word : ℕ)
    → i < 4
    → j < 4
    → word < 2 ^ 32
    → byte_of j (merge_loop value strobe 1 i word)
      ≡ (if (i == j) && strobed strobe i then byte_of j value else byte_of j word)
unfolding merge_loop
merge_step value strobe i j word hi hj hw =
    ground (arith, merge_lane i value word, byte_of-put_byte i j (byte_of i value) word)

merge_step-lt :
    (value strobe i word : ℕ) → i < 4 → word < 2 ^ 32 → merge_loop value strobe 1 i word < 2 ^ 32
unfolding merge_loop
merge_step-lt value strobe i word hi hw =
    ground (arith, merge_lane i value word, put_byte-lt i (byte_of i value) word)

merge_loop-suc :
    (value strobe left i word : ℕ)
    → merge_loop value strobe (suc left) i word
      ≡ merge_loop value strobe left (i + 1) (merge_loop value strobe 1 i word)
unfolding merge_loop
merge_loop-suc value strobe left i word = refl

merge_loop_byte :
    (value strobe left i j word : ℕ)
    → i + left ≡ 4
    → j < 4
    → word < 2 ^ 32
    → byte_of j (merge_loop value strobe left i word)
      ≡ (if leb i j && strobed strobe j then byte_of j value else byte_of j word)
merge_loop_byte value strobe zero i j word e hj hw = unfold merge_loop in ground arith
merge_loop_byte value strobe (suc left) i j word e hj hw =
    rw (merge_loop-suc value strobe left i word) (
      ground (
        arith,
        merge_step value strobe i j word,
        merge_step-lt value strobe i word,
        merge_loop_byte value strobe left (i + 1) j (merge_loop value strobe 1 i word)
            (omega arith),
      ))

pub merge_loop-lt :
    (value strobe left i word : ℕ)
    → i + left ≡ 4
    → word < 2 ^ 32
    → merge_loop value strobe left i word < 2 ^ 32
merge_loop-lt value strobe zero i word e hw = unfold merge_loop in hw
merge_loop-lt value strobe (suc left) i word e hw = rw (merge_loop-suc value strobe left i word) (
    merge_loop-lt value strobe left (i + 1) _ (omega arith)
      (merge_step-lt value strobe i word (omega arith) hw))

-- One round of the byte loop.
write_step : ℕ → ℕ → ℕ → ℕ → SparseMemory → SparseMemory
write_step address value strobe byte m = write_loop address value strobe 1 byte m

write_step-IsMemory :
    (address value strobe byte : ℕ) (m : SparseMemory)
    → IsMemory m
    → IsMemory (write_step address value strobe byte m)
unfolding write_step write_loop
write_step-IsMemory a value strobe byte m h = elim (Bool-cases (strobed strobe byte)) [
  | inl e ↦ rw e (write8-IsMemory m _ (byte_of byte value) (omega arith) h)
  | inr e ↦ rw e h
]

write_step_byte :
    (a value strobe byte b : ℕ) (m : SparseMemory)
    → IsMemory m
    → a < 2 ^ 32
    → b < 2 ^ 32
    → byte < 8
    → read8 (write_step a value strobe byte m) b
      ≡ (if (byte == distance a b) && strobed strobe byte then byte_of byte value else read8 m b)
unfolding write_step write_loop
write_step_byte a value strobe byte b m h ha hb hi =
    ground (arith, read8-write8 m (u32 (a + byte)) b (byte_of byte value))

write_loop-suc :
    (a value strobe left byte : ℕ) (m : SparseMemory)
    → write_loop a value strobe (suc left) byte m
      ≡ write_loop a value strobe left (byte + 1) (write_step a value strobe byte m)
unfolding write_step write_loop
write_loop-suc a value strobe left byte m = refl

pub write_loop_byte :
    (a value strobe left byte b : ℕ) (m : SparseMemory)
    → IsMemory m
    → a < 2 ^ 32
    → b < 2 ^ 32
    → byte + left ≤ 8
    → IsMemory (write_loop a value strobe left byte m)
      × (read8 (write_loop a value strobe left byte m) b ≡ (
          if leb byte (distance a b)
          then stored (byte + left) strobe value (distance a b) (read8 m b)
          else read8 m b))
write_loop_byte a value strobe zero byte b m h ha hb hi = unfold write_loop in (h, ground arith)
write_loop_byte a value strobe (suc left) byte b m h ha hb hi =
    let m' = write_step a value strobe byte m in
    let h' = write_step-IsMemory a value strobe byte m h in
    let ih = write_loop_byte a value strobe left (byte + 1) b m' h' ha hb (omega arith) in
    rw (write_loop-suc a value strobe left byte m)
      (ih.0, ground (arith, ih.1, write_step_byte a value strobe byte b m h))

pub write32_word :
    (m : SparseMemory) (a value strobe j : ℕ)
    → (a % 4 == 0) ≡ true
    → word_at (write32 m a value strobe) j
      ≡ (if a / 4 == j then merge_loop value strobe 4 0 (word_at m (a / 4)) else word_at m j)
unfolding write32
write32_word m a value strobe j aligned =
    rw (bit_and_low 2 a, aligned) (word_at-upsert m (a / 4) j _)

-- A 32-bit store, at any alignment, writes each strobed byte of the value at its address, modulo
-- 2 ^ 32, and changes no other byte.
pub read8-write32 :
    (m : SparseMemory) (a b value strobe : ℕ)
    → IsMemory m
    → a < 2 ^ 32
    → b < 2 ^ 32
    → read8 (write32 m a value strobe) b ≡ stored 4 strobe value (distance a b) (read8 m b)
read8-write32 m a b value strobe h ha hb = elim (Bool-cases (a % 4 == 0)) [
  | inl aligned ↦ ground (
    arith,
    read8_lem (write32 m a value strobe) b,
    read8_lem m b,
    write32_word m a value strobe (b / 4) aligned,
    merge_loop_byte value strobe 4 0 (b % 4) (word_at m (a / 4)),
    word_at-lt m (a / 4) h,
  )
  | inr off ↦
      unfold write32 in
      rw (bit_and_low 2 a, off)
        (ground (arith, (write_loop_byte a value strobe 4 0 b m h ha hb (omega arith)).1))
]

-- A 64-bit store, likewise, over eight bytes.
pub read8-write64 :
    (m : SparseMemory) (a b value strobe : ℕ)
    → IsMemory m
    → a < 2 ^ 32
    → b < 2 ^ 32
    → read8 (write64 m a value strobe) b ≡ stored 8 strobe value (distance a b) (read8 m b)
unfolding write64
read8-write64 m a b value strobe h ha hb =
    ground (arith, (write_loop_byte a value strobe 8 0 b m h ha hb (omega arith)).1)
