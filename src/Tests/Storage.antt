-- ===== src/Tests/Storage.antt =====
-- The memory, the generator, the exit monitor and checkpoints at concrete inputs.
use zircon_sim.Prelude.{
  ℕ, ◌/◌, ◌^◌, ◌<◌, ◌≡◌, refl, List, [], ◌∷◌, ◌++◌, length, get_or, ltb, if◌then◌else◌, arith,
}
use zircon_sim.Result.{ok, err}
use zircon_sim.Memory.{SparseMemory, empty, word_at, read8, read32, read64, write32, load}
use zircon_sim.Memory.Access.{distance, stored, read8-write32, read8-write64}
use zircon_sim.Memory.{write64}
use zircon_sim.Memory.Table.{find}
use zircon_sim.Memory.Reads.{le32, le64, read32-le32, read64-le64}
use zircon_sim.Memory.Bytes.{IsMemory}
use zircon_sim.Memory.Load.{read8-load}
use zircon_sim.Memory.State
use zircon_sim.Memory.State.{restore-save_words}
use zircon_sim.Rng.{DeterministicRng, next64}
use zircon_sim.Rng.Laws.{IsLive, next64-IsLive}
use zircon_sim.ExitMonitor.{TestExitMonitor, observe_write}
use zircon_sim.ExitMonitor.Laws.{observe_write-write32}
use zircon_sim.Checkpoint.{read_string, write_string, read_bytes, truncated}
use zircon_sim.Checkpoint.Laws.{read_string-write_string, read_bytes-truncated}

abbrev two_words : SparseMemory
two_words = record { words = (0x20000000, 0x11223344) ∷ (0x20000001, 0x55667788) ∷ [] }

two_words-IsMemory : IsMemory two_words
two_words-IsMemory = (omega arith, (omega arith, tt))

-- A halfword across the two words.
read8-write32_example :
    read8 (write32 two_words 0x80000003 0xaabb 0x3) 0x80000004
    ≡ stored 4 0x3 0xaabb (distance 0x80000003 0x80000004) (read8 two_words 0x80000004)
read8-write32_example =
    read8-write32 two_words 0x80000003 0x80000004 0xaabb 0x3 two_words-IsMemory (omega arith)
      (omega arith)

read8-write64_example :
    read8 (write64 two_words 0x80000002 0x0102030405060708 0xff) 0x80000005
    ≡ stored 8 0xff 0x0102030405060708 (distance 0x80000002 0x80000005) (read8 two_words 0x80000005)
read8-write64_example =
    read8-write64 two_words 0x80000002 0x80000005 0x0102030405060708 0xff two_words-IsMemory
      (omega arith) (omega arith)

read32-le32_example : read32 two_words 0x80000002 ≡ le32 two_words 0x80000002
read32-le32_example = read32-le32 two_words 0x80000002 two_words-IsMemory (omega arith)

read64-le64_example : read64 two_words 0x80000000 ≡ le64 two_words 0x80000000
read64-le64_example = read64-le64 two_words 0x80000000 two_words-IsMemory (omega arith)

abbrev three_bytes : List ℕ
three_bytes = 0x13 ∷ 0x05 ∷ 0x10 ∷ []

read8-load_example :
    IsMemory (load two_words 0x80000002 three_bytes)
    × (read8 (load two_words 0x80000002 three_bytes) 0x80000003 ≡ (
        if ltb (distance 0x80000002 0x80000003) (length three_bytes)
        then get_or three_bytes (distance 0x80000002 0x80000003) 0
        else read8 two_words 0x80000003))
read8-load_example =
    read8-load two_words 0x80000002 0x80000003 three_bytes two_words-IsMemory
      (omega arith, (omega arith, (omega arith, tt))) (omega arith) (omega arith) (omega arith)

restore-save_words_example :
    State.restore empty (State.save two_words ++ 7 ∷ []) ≡ ok (two_words, 7 ∷ [])
unfolding State.IsDistinct find
restore-save_words_example = restore-save_words two_words empty (7 ∷ []) (record {
  distinct = (refl, (refl, tt));
  keys = (omega arith, (omega arith, tt));
  values = (omega arith, (omega arith, tt));
  size = omega arith;
})

abbrev seeded : DeterministicRng
seeded = record { state = 0x20250726 }

next64-IsLive_example : IsLive (next64 seeded).0.state × ((next64 seeded).1 < 2 ^ 64)
next64-IsLive_example = next64-IsLive seeded (omega arith, omega arith)

abbrev watching : TestExitMonitor
watching = record { tohost_address = 0x80000004; value = 0x55667788 }

observe_write-write32_example :
    (observe_write watching 0x80000004 0x99 0x1).0.value
    ≡ word_at (write32 two_words 0x80000004 0x99 0x1) (0x80000004 / 4)
unfolding word_at find
observe_write-write32_example =
    observe_write-write32 watching two_words 0x80000004 0x99 0x1 (omega arith) (omega arith) refl
      refl

read_string-write_string_example :
    read_string 16 (write_string three_bytes ++ 9 ∷ []) ≡ ok (three_bytes, 9 ∷ [])
read_string-write_string_example =
    read_string-write_string 16 three_bytes (9 ∷ []) (omega arith) (omega arith)

read_bytes-truncated_example : read_bytes 8 three_bytes ≡ err truncated
read_bytes-truncated_example = read_bytes-truncated 8 three_bytes (omega arith)
