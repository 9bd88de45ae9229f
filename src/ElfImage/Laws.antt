-- ===== src/ElfImage/Laws.antt =====
-- Where the bytes of an image stand in memory.
use zircon_sim.Prelude.{
  ℕ, zero, suc, ◌+◌, ◌-◌, ◌^◌, ◌<◌, ◌≤◌, ◌≡◌, refl, ◌∙◌, false, ◌&&◌, List, length, get_or, take,
  drop, length-drop, length-take, get_or-drop, get_or-take, take-All, drop-All, ◌⊎◌, inl, inr, ◌||◌,
  Bool-cases, true, ltb, leb, ◌==◌, if◌then◌else◌, arith,
}
use zircon_sim.Word.{u32}
use zircon_sim.Result.{ok, err, runtime_error}
use zircon_sim.Memory.{SparseMemory, read8, write8}
use zircon_sim.Memory
use zircon_sim.Memory.Bytes.{IsMemory, read8-write8, write8-IsMemory}
use zircon_sim.Memory.Access.{distance}
use zircon_sim.Memory.Load.{IsBytes, read8-load}
use zircon_sim.ElfImage.Format.{program_load, Elf32ProgramHeader, object_at, require_range}
use zircon_sim.ElfImage.Load.{zero_fill, segment_address, load_segment}

-- `objectAt` gives a whole structure or throws: it never reads past the end of the file.
pub object_at_lem :
    (file : List ℕ) (offset size : ℕ)
    → ((offset + size ≤ length file)
        × (object : List ℕ) × (object_at file offset size ≡ ok object)
        × (length object ≡ size)
        × ((i : ℕ) → i < size → get_or object i 0 ≡ get_or file (offset + i) 0))
      ⊎ ((length file < offset + size)
          × (object_at file offset size ≡ err (runtime_error "truncated ELF structure")))
unfolding object_at
object_at_lem file offset size =
    let test = ltb (length file) offset || ltb (length file - offset) size in
    elim (Bool-cases test) [
      | inl e ↦ inr (ground (arith, e), rw e refl)
      | inr e ↦
          let fits : offset + size ≤ length file = ground (arith, e) in
          inl (
            fits,
            take size (drop offset file),
            rw e refl,
            length-take size (drop offset file) (omega (arith, length-drop offset file)),
            λ i h. get_or-take size i (drop offset file) 0 h ∙ get_or-drop offset i file 0,
          )
    ]

zero_fill_byte :
    (a left byte b : ℕ) (m : SparseMemory)
    → IsMemory m
    → a < 2 ^ 32
    → b < 2 ^ 32
    → byte + left ≤ 2 ^ 32
    → IsMemory (zero_fill a left byte m)
      × (read8 (zero_fill a left byte m) b
          ≡ (if leb byte (distance a b) && ltb (distance a b) (byte + left) then 0 else read8 m b))
unfolding zero_fill
zero_fill_byte a zero byte b m h ha hx fits = (h, ground arith)
zero_fill_byte a (suc left) byte b m h ha hx fits =
    let m' = write8 m (u32 (a + byte)) 0 in
    let ih =
      zero_fill_byte a left (byte + 1) b m' (write8-IsMemory m _ 0 (omega arith) h) ha hx
        (omega arith) in
    (ih.0, ground (arith, ih.1, read8-write8 m (u32 (a + byte)) b 0 h (omega arith)))

segment-IsBytes :
    (file : List ℕ) (offset size : ℕ) → IsBytes file → IsBytes (take size (drop offset file))
segment-IsBytes file offset size h =
    take-All (λ b. b < 256) size (drop offset file) (drop-All (λ b. b < 256) offset file h)

-- Loading a segment puts its bytes of the file at its address, zeros behind them up to its size in
-- memory, and changes no other byte.
pub load_segment_lem :
    (file : List ℕ) (program : Elf32ProgramHeader) (m : SparseMemory) (b : ℕ)
    → IsMemory m
    → IsBytes file
    → program.type ≡ program_load
    → program.offset + program.file_size ≤ length file
    → program.file_size < 2 ^ 32
    → program.memory_size < 2 ^ 32
    → segment_address program < 2 ^ 32
    → b < 2 ^ 32
    → (m' : SparseMemory) × (load_segment file program m ≡ ok m')
      × IsMemory m'
      × (read8 m' b ≡ (
          if ltb (distance (segment_address program) b) program.file_size
          then get_or file (program.offset + distance (segment_address program) b) 0
          else if ltb (distance (segment_address program) b) program.memory_size
          then 0
          else read8 m b))
unfolding load_segment require_range
load_segment_lem file program m b hm hf load range hs hz ha hb =
    let a = segment_address program in
    let bytes = take program.file_size (drop program.offset file) in
    let size : length bytes ≡ program.file_size =
      length-take program.file_size (drop program.offset file)
        (omega (arith, length-drop program.offset file)) in
    let loaded =
      read8-load m a b bytes hm (segment-IsBytes file program.offset program.file_size hf) ha hb
        (omega (arith, size)) in
    let filled =
      zero_fill_byte a (program.memory_size - program.file_size) program.file_size b
        (Memory.load m a bytes) loaded.0 ha hb (omega arith) in
    (
      zero_fill a (program.memory_size - program.file_size) program.file_size
          (Memory.load m a bytes),
      rw (is_load, in_range) refl,
      filled.0,
      ground (
        arith,
        filled.1,
        loaded.1,
        size,
        get_or-take program.file_size (distance a b) (drop program.offset file) 0,
        get_or-drop program.offset (distance a b) file 0,
      ),
    )
  where
    is_load : (program.type == program_load) ≡ true
    is_load = ground (arith, load)

    in_range :
        (ltb (length file) program.offset || ltb (length file - program.offset) program.file_size)
        ≡ false
    in_range = ground (arith, range)
