-- ===== src/Memory/Reads.antt =====
-- The wide reads against the byte view.
use zircon_sim.Prelude.{
  ℕ, zero, suc, ◌+◌, ◌*◌, ◌/◌, ◌%◌, ◌^◌, ◌<◌, ◌≡◌, ◌∙◌, refl, arith, ◌==◌, Bool-cases, inl, inr,
}
use zircon_sim.Word.{u32}
use zircon_sim.Word.Table.{bit_and_low, zero-bit_or, bit_or_add}
use zircon_sim.Memory.{SparseMemory, word_at, read8, read_loop, read32, read64}
use zircon_sim.Memory.Bytes.{IsMemory, word_at-lt, read8_lem, read8-lt}

-- The little-endian value of the four bytes from `a` on.
abbrev pub le32 : SparseMemory → ℕ → ℕ
le32 m a =
    read8 m a
    + read8 m (u32 (a + 1)) * 2 ^ 8
    + read8 m (u32 (a + 2)) * 2 ^ 16
    + read8 m (u32 (a + 3)) * 2 ^ 24

read_loop-le32 : (m : SparseMemory) (a : ℕ) → a < 2 ^ 32 → read_loop m a 4 0 0 ≡ le32 m a
unfolding read_loop
read_loop-le32 m a ha = ground (
  arith,
  zero-bit_or (read8 m (u32 (a + 0))),
  read8-lt m (u32 (a + 0)),
  read8-lt m (u32 (a + 1)),
  read8-lt m (u32 (a + 2)),
  bit_or_add 8 (read8 m (u32 (a + 0))) (read8 m (u32 (a + 1))),
  bit_or_add 16 (read8 m (u32 (a + 0)) + read8 m (u32 (a + 1)) * 2 ^ 8) (read8 m (u32 (a + 2))),
  bit_or_add 24
      (read8 m (u32 (a + 0)) + read8 m (u32 (a + 1)) * 2 ^ 8 + read8 m (u32 (a + 2)) * 2 ^ 16)
      (read8 m (u32 (a + 3))),
)

word_at-le32 :
    (m : SparseMemory) (a : ℕ) → IsMemory m → a < 2 ^ 32 → a % 4 ≡ 0 → word_at m (a / 4) ≡ le32 m a
word_at-le32 m a h ha e = ground (
  arith,
  word_at-lt m (a / 4) h,
  read8_lem m a,
  read8_lem m (a + 1),
  read8_lem m (a + 2),
  read8_lem m (a + 3),
)

-- A 32-bit load, at any alignment, is the little-endian value of its four bytes.
pub read32-le32 : (m : SparseMemory) (a : ℕ) → IsMemory m → a < 2 ^ 32 → read32 m a ≡ le32 m a
unfolding read32
read32-le32 m a h ha = elim (Bool-cases (a % 4 == 0)) [
  | inl aligned ↦ rw (bit_and_low 2 a, aligned) (word_at-le32 m a h ha (ground arith))
  | inr off ↦ rw (bit_and_low 2 a, off) (read_loop-le32 m a ha)
]

abbrev pub le64 : SparseMemory → ℕ → ℕ
le64 m a = le32 m a + le32 m (u32 (a + 4)) * 2 ^ 32

abbrev low_bytes : SparseMemory → ℕ → ℕ → ℕ
low_bytes m a zero = 0
low_bytes m a (suc n) = low_bytes m a n + read8 m (u32 (a + n)) * 2 ^ (n * 8)

read_loop_step :
    (m : SparseMemory) (a left n : ℕ)
    → n < 8
    → low_bytes m a n < 2 ^ (n * 8)
    → read_loop m a (suc left) n (low_bytes m a n)
      ≡ read_loop m a left (n + 1) (low_bytes m a (suc n))
unfolding read_loop
read_loop_step m a left n hn h = rw (bit_or_add (n * 8) (low_bytes m a n) (read8 m (u32 (a + n))) h)

read_loop-low_bytes : (m : SparseMemory) (a : ℕ) → read_loop m a 8 0 0 ≡ low_bytes m a 8
read_loop-low_bytes m a =
    read_loop_step m a 7 0 (omega arith) (omega arith)
    ∙ read_loop_step m a 6 1 (omega arith) (omega (arith, read8-lt))
    ∙ read_loop_step m a 5 2 (omega arith) (omega (arith, read8-lt))
    ∙ read_loop_step m a 4 3 (omega arith) (omega (arith, read8-lt))
    ∙ read_loop_step m a 3 4 (omega arith) (omega (arith, read8-lt))
    ∙ read_loop_step m a 2 5 (omega arith) (omega (arith, read8-lt))
    ∙ read_loop_step m a 1 6 (omega arith) (omega (arith, read8-lt))
    ∙ read_loop_step m a 0 7 (omega arith) (omega (arith, read8-lt))
    ∙ unfold read_loop in refl

low_bytes-le64 : (m : SparseMemory) (a : ℕ) → a < 2 ^ 32 → low_bytes m a 8 ≡ le64 m a
low_bytes-le64 m a ha = ground arith

le32-lt : (m : SparseMemory) (a : ℕ) → le32 m a < 2 ^ 32
le32-lt m a = omega (arith, read8-lt)

-- So is a 64-bit load, of its eight bytes.
pub read64-le64 : (m : SparseMemory) (a : ℕ) → IsMemory m → a < 2 ^ 32 → read64 m a ≡ le64 m a
unfolding read64
read64-le64 m a h ha = elim (Bool-cases (a % 8 == 0)) [
  | inl aligned ↦
      rw
        (
          bit_and_low 3 a,
          aligned,
          read32-le32 m a h ha,
          read32-le32 m (u32 (a + 4)) h (omega arith),
        )
        (bit_or_add 32 (le32 m a) (le32 m (u32 (a + 4))) (le32-lt m a))
  | inr off ↦ rw (bit_and_low 3 a, off) (read_loop-low_bytes m a ∙ low_bytes-le64 m a ha)
]
