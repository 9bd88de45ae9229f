-- ===== src/Memory/Bytes.antt =====
-- `read8` and `write8`: the memory as a function from addresses to bytes.
use zircon_sim.Prelude.{
  ℕ, ◌*◌, ◌/◌, ◌%◌, ◌^◌, ◌<◌, ◌≡◌, arith, ◌==◌, if◌then◌else◌, Option-cases, inl, inr,
}
use zircon_sim.Word.{put_byte}
use zircon_sim.Word.Table.{bit_and_low}
use zircon_sim.Word.Bytes.{byte_of, byte_of-put_byte, put_byte-lt}
use zircon_sim.Memory.Table.{find, upsert, find-upsert, IsWords, upsert-IsWords, find-lt}
use zircon_sim.Memory.{SparseMemory, word_at, read8, write8}

abbrev pub IsMemory : SparseMemory → Type 0
IsMemory m = IsWords m.words

pub word_at-lt : (m : SparseMemory) (k : ℕ) → IsMemory m → word_at m k < 2 ^ 32
unfolding word_at
word_at-lt m k h = elim (Option-cases (find k m.words)) [
  | inl e ↦ rw (e, word_at) (omega arith)
  | inr (w, e) ↦ rw (e, word_at) (find-lt k w m.words h e)
]

pub word_at-upsert :
    (m : SparseMemory) (k j v : ℕ)
    → word_at (record m { words = upsert k v m.words }) j ≡ (if k == j then v else word_at m j)
unfolding word_at
word_at-upsert m k j v = ground (arith, find-upsert k j v m.words)

pub read8_lem : (m : SparseMemory) (a : ℕ) → read8 m a ≡ byte_of (a % 4) (word_at m (a / 4))
unfolding read8
read8_lem m a = rw (bit_and_low 2 a)

pub read8-lt : (m : SparseMemory) (a : ℕ) → read8 m a < 256
unfolding read8
read8-lt m a = omega arith

write8_word :
    (m : SparseMemory) (a v j : ℕ)
    → word_at (write8 m a v) j
      ≡ (if a / 4 == j then put_byte 32 (a % 4 * 8) v (word_at m (a / 4)) else word_at m j)
unfolding write8
write8_word m a v j = rw (bit_and_low 2 a) (word_at-upsert m (a / 4) j _)

-- A byte written is read back, and every other address keeps its byte.
pub read8-write8 :
    (m : SparseMemory) (a b v : ℕ)
    → IsMemory m
    → v < 256
    → read8 (write8 m a v) b ≡ (if a == b then v else read8 m b)
read8-write8 m a b v h hv = ground (
  arith,
  read8_lem (write8 m a v) b,
  read8_lem m b,
  write8_word m a v (b / 4),
  byte_of-put_byte (a % 4) (b % 4) v (word_at m (a / 4)),
  word_at-lt m (a / 4) h,
)

pub write8-IsMemory : (m : SparseMemory) (a v : ℕ) → v < 256 → IsMemory m → IsMemory (write8 m a v)
unfolding write8
write8-IsMemory m a v hv h =
    upsert-IsWords (a / 4) _ m.words
      (rw (bit_and_low 2 a) (put_byte-lt (a % 4) v _ (omega arith) hv (word_at-lt m (a / 4) h))) h
