-- ===== src/ElfImage/Format.antt =====
-- The structures of an ELF32 file, and the guarded access to them.
use zircon_sim.Prelude.{
  ℕ, ◌+◌, ◌-◌, ◌||◌, List, [], ◌∷◌, length, take, drop, ltb, leb, ◌==◌, if◌then◌else◌,
}
use zircon_sim.Checkpoint.{of_le}
use zircon_sim.Result.{Result, ok, err, ◌>>=◌, ◌>>◌, throw_if, runtime_error}

abbrev pub elf_class_32 : ℕ
elf_class_32 = 1

abbrev pub elf_data_little_endian : ℕ
elf_data_little_endian = 1

abbrev pub machine_riscv : ℕ
machine_riscv = 243

abbrev pub program_load : ℕ
program_load = 1

abbrev pub section_symbol_table : ℕ
section_symbol_table = 2

-- The members that `load` reads. `ident` 4 and 5 are the class and the byte order.
pub record Elf32Header : Type 0 where
  pub ident_class : ℕ
  pub ident_data : ℕ
  pub machine : ℕ
  pub entry : ℕ
  pub program_header_offset : ℕ
  pub section_header_offset : ℕ
  pub program_header_entry_size : ℕ
  pub program_header_count : ℕ
  pub section_header_entry_size : ℕ
  pub section_header_count : ℕ

pub record Elf32ProgramHeader : Type 0 where
  pub type : ℕ
  pub offset : ℕ
  pub virtual_address : ℕ
  pub physical_address : ℕ
  pub file_size : ℕ
  pub memory_size : ℕ

pub record Elf32SectionHeader : Type 0 where
  pub type : ℕ
  pub offset : ℕ
  pub size : ℕ
  pub link : ℕ
  pub entry_size : ℕ

pub record Elf32Symbol : Type 0 where
  pub name : ℕ
  pub value : ℕ

-- The member of `size` bytes at `offset` of a packed structure.
unfoldable pub member : List ℕ → ℕ → ℕ → ℕ
member object offset size = of_le (take size (drop offset object))

-- `objectAt`: the bytes of a structure of `size` bytes.
unfoldable pub object_at : List ℕ → ℕ → ℕ → Result (List ℕ)
object_at file offset size =
    if ltb (length file) offset || ltb (length file - offset) size
    then err (runtime_error "truncated ELF structure")
    else ok (take size (drop offset file))

unfoldable pub header_at : List ℕ → ℕ → Result Elf32Header
unfolding object_at
header_at file offset = do
  object ← object_at file offset 52
  ok (record {
    ident_class = member object 4 1;
    ident_data = member object 5 1;
    machine = member object 18 2;
    entry = member object 24 4;
    program_header_offset = member object 28 4;
    section_header_offset = member object 32 4;
    program_header_entry_size = member object 42 2;
    program_header_count = member object 44 2;
    section_header_entry_size = member object 46 2;
    section_header_count = member object 48 2;
  })

unfoldable pub program_header_at : List ℕ → ℕ → Result Elf32ProgramHeader
unfolding object_at
program_header_at file offset = do
  object ← object_at file offset 32
  ok (record {
    type = member object 0 4;
    offset = member object 4 4;
    virtual_address = member object 8 4;
    physical_address = member object 12 4;
    file_size = member object 16 4;
    memory_size = member object 20 4;
  })

unfoldable pub section_header_at : List ℕ → ℕ → Result Elf32SectionHeader
unfolding object_at
section_header_at file offset = do
  object ← object_at file offset 40
  ok (record {
    type = member object 4 4;
    offset = member object 16 4;
    size = member object 20 4;
    link = member object 24 4;
    entry_size = member object 36 4;
  })

unfoldable pub symbol_at : List ℕ → ℕ → Result Elf32Symbol
unfolding object_at
symbol_at file offset = do
  object ← object_at file offset 16
  ok (record { name = member object 0 4; value = member object 4 4 })

unfoldable pub require_range : List ℕ → ℕ → ℕ → Result (Unit {0})
require_range file offset size =
    throw_if (ltb (length file) offset || ltb (length file - offset) size)
      (runtime_error "ELF range exceeds file size")

-- The characters before the first NUL, if there is one.
unfoldable pub until_nul : List ℕ → Result (List ℕ)
until_nul [] = err (runtime_error "unterminated ELF string")
until_nul (c ∷ chars) =
    let rest = until_nul chars in if c == 0 then ok [] else (do name ← rest; ok (c ∷ name))

unfoldable pub read_string : List ℕ → ℕ → ℕ → ℕ → Result (List ℕ)
unfolding require_range until_nul
read_string file base size offset = do
  throw_if (leb size offset) (runtime_error "ELF string offset is outside its table")
  require_range file base size
  until_nul (take (size - offset) (drop (base + offset) file))
