-- ===== src/Memory/Load.antt =====
-- `load`, and that every store keeps the words `uint32_t`.
use zircon_sim.Prelude.{
  ℕ, zero, suc, ◌+◌, ◌-◌, ◌/◌, ◌%◌, ◌^◌, ◌<◌, ◌≤◌, ◌≡◌, refl, ◌&&◌, arith, ltb, leb, ◌==◌,
  if◌then◌else◌, Bool-cases, inl, inr, List, [], ◌∷◌, All, length, get_or,
}
use zircon_sim.Word.{u32}
use zircon_sim.Word.Table.{bit_and_low}
use zircon_sim.Memory.{SparseMemory, word_at, read8, write8, write32, load_loop, load}
use zircon_sim.Memory.Table.{upsert-IsWords}
use zircon_sim.Memory.Bytes.{IsMemory, word_at-lt, read8-write8, write8-IsMemory}
use zircon_sim.Memory.Access.{distance, merge_loop-lt, write_loop_byte}

pub write32-IsMemory :
    (m : SparseMemory) (a value strobe : ℕ)
    → a < 2 ^ 32
    → IsMemory m
    → IsMemory (write32 m a value strobe)
unfolding write32
write32-IsMemory m a value strobe ha h = elim (Bool-cases (a % 4 == 0)) [
  | inl aligned ↦
      rw (bit_and_low 2 a, aligned)
        (upsert-IsWords (a / 4) _ m.words
          (merge_loop-lt value strobe 4 0 (word_at m (a / 4)) refl (word_at-lt m (a / 4) h)) h)
  | inr off ↦
      rw (bit_and_low 2 a, off) (write_loop_byte a value strobe 4 0 a m h ha ha (omega arith)).0
]

abbrev pub IsBytes : List ℕ → Type 0
IsBytes bytes = All (λ b. b < 256) bytes

get_or-cons :
    (v : ℕ) (bytes : List ℕ) (k : ℕ)
    → get_or (v ∷ bytes) k 0 ≡ (if k == 0 then v else get_or bytes (k - 1) 0)
get_or-cons v bytes zero = refl
get_or-cons v bytes (suc k) = ground arith

load_loop_byte :
    (a : ℕ) (bytes : List ℕ) (byte b : ℕ) (m : SparseMemory)
    → IsMemory m
    → IsBytes bytes
    → a < 2 ^ 32
    → b < 2 ^ 32
    → byte + length bytes ≤ 2 ^ 32
    → IsMemory (load_loop a bytes byte m)
      × (read8 (load_loop a bytes byte m) b ≡ (
          if leb byte (distance a b) && ltb (distance a b) (byte + length bytes)
          then get_or bytes (distance a b - byte) 0
          else read8 m b))
unfolding load_loop
load_loop_byte a [] byte b m h hb ha hx fits = (h, ground arith)
load_loop_byte a (v ∷ bytes) byte b m h hb ha hx fits =
    let m' = write8 m (u32 (a + u32 byte)) v in
    let ih =
      load_loop_byte a bytes (byte + 1) b m' (write8-IsMemory m _ v hb.0 h) hb.1 ha hx
        (omega arith) in
    (
      ih.0,
      ground (
        arith,
        ih.1,
        read8-write8 m (u32 (a + u32 byte)) b v h hb.0,
        get_or-cons v bytes (distance a b - byte),
      ),
    )

-- Loading a buffer of at most 2 ^ 32 bytes puts byte `i` of it at `a + i`, modulo 2 ^ 32, and
-- changes no other byte; the words stay `uint32_t`.
pub read8-load :
    (m : SparseMemory) (a b : ℕ) (bytes : List ℕ)
    → IsMemory m
    → IsBytes bytes
    → a < 2 ^ 32
    → b < 2 ^ 32
    → length bytes ≤ 2 ^ 32
    → IsMemory (load m a bytes)
      × (read8 (load m a bytes) b ≡ (
          if ltb (distance a b) (length bytes) then get_or bytes (distance a b) 0 else read8 m b))
unfolding load
read8-load m a b bytes h hb ha hx fits = ground (arith, load_loop_byte a bytes 0 b m h hb ha hx)
