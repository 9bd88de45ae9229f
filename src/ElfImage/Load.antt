-- ===== src/ElfImage/Load.antt =====
-- `ElfImage` and `load`.
use Prim.Native.String.{String}
use Prim.Native.String.{◌++◌ as str_append}
use zircon_sim.Prelude.{
  ℕ, zero, suc, ◌+◌, ◌-◌, ◌*◌, ◌/◌, Bool, true, false, not, ◌||◌, ◌&&◌, List, [], ◌∷◌, Option, none,
  some, length, get_or, take, drop, leb, ◌==◌, if◌then◌else◌,
}
use zircon_sim.Word.{u32}
use zircon_sim.Result.{Result, ok, err, ◌>>=◌, ◌>>◌, throw_if, runtime_error}
use zircon_sim.Memory.{SparseMemory, empty, write8}
use zircon_sim.Memory
use zircon_sim.ElfImage.Format.{
  elf_class_32, elf_data_little_endian, machine_riscv, program_load, section_symbol_table,
  Elf32Header, Elf32ProgramHeader, Elf32SectionHeader, Elf32Symbol, header_at, program_header_at,
  section_header_at, symbol_at, require_range,
}
use zircon_sim.ElfImage.Format

-- The symbol table: names as their characters.
abbrev pub Symbols : Type 0
Symbols = List (List ℕ × ℕ)

pub record ElfImage : Type 0 where
  pub entry : ℕ
  pub is_elf : Bool
  pub memory : SparseMemory
  pub symbols : Symbols

unfoldable pub same_name : List ℕ → List ℕ → Bool
same_name [] [] = true
same_name [] (b ∷ bs) = false
same_name (a ∷ chars) [] = false
same_name (a ∷ chars) (b ∷ bs) = (a == b) && same_name chars bs

unfoldable pub find_symbol : List ℕ → Symbols → Option ℕ
find_symbol name [] = none
find_symbol name ((key, v) ∷ symbols) =
    if same_name key name then some v else find_symbol name symbols

-- `insert_or_assign`
unfoldable pub insert_or_assign : List ℕ → ℕ → Symbols → Symbols
insert_or_assign name v [] = (name, v) ∷ []
insert_or_assign name v ((key, w) ∷ symbols) =
    if same_name key name then (name, v) ∷ symbols else (key, w) ∷ insert_or_assign name v symbols

-- `symbol`
unfoldable pub symbol : ElfImage → List ℕ → Option ℕ
unfolding find_symbol
symbol image name = find_symbol name image.symbols

-- The bytes of a segment beyond those in the file.
unfoldable pub zero_fill : ℕ → ℕ → ℕ → SparseMemory → SparseMemory
zero_fill address zero byte m = m
zero_fill address (suc left) byte m =
    zero_fill address left (byte + 1) (write8 m (u32 (address + byte)) 0)

abbrev pub segment_address : Elf32ProgramHeader → ℕ
segment_address program =
    if program.physical_address == 0 then program.virtual_address else program.physical_address

-- The memory after one program header.
unfoldable pub load_segment : List ℕ → Elf32ProgramHeader → SparseMemory → Result SparseMemory
unfolding zero_fill
load_segment file program memory = if not (program.type == program_load) then ok memory else (do
  require_range file program.offset program.file_size
  ok (
      zero_fill (segment_address program) (program.memory_size - program.file_size)
        program.file_size
        (Memory.load memory (segment_address program)
          (take program.file_size (drop program.offset file)))))

unfoldable pub load_segments : List ℕ → Elf32Header → ℕ → ℕ → SparseMemory → Result SparseMemory
unfolding load_segment
load_segments file header zero index memory = ok memory
load_segments file header (suc left) index memory = do
  program ←
      program_header_at file
        (header.program_header_offset + index * header.program_header_entry_size)
  memory ← load_segment file program memory
  load_segments file header left (index + 1) memory

unfoldable pub read_sections : List ℕ → Elf32Header → ℕ → ℕ → Result (List Elf32SectionHeader)
read_sections file header zero index = ok []
read_sections file header (suc left) index = do
  section ←
      section_header_at file
        (header.section_header_offset + index * header.section_header_entry_size)
  sections ← read_sections file header left (index + 1)
  ok (section ∷ sections)

-- The symbol table after one entry; an entry without a name is skipped.
unfoldable pub read_symbol : List ℕ → Elf32SectionHeader → Elf32Symbol → Symbols → Result Symbols
read_symbol file strings entry symbols = if entry.name == 0 then ok symbols else (do
  name ← Format.read_string file strings.offset strings.size entry.name
  ok (insert_or_assign name entry.value symbols))

-- The symbols of one table, for the entries left.
unfoldable pub read_symbols :
    List ℕ → Elf32SectionHeader → Elf32SectionHeader → ℕ → ℕ → Symbols → Result Symbols
unfolding read_symbol
read_symbols file section strings zero index symbols = ok symbols
read_symbols file section strings (suc left) index symbols = do
  entry ← symbol_at file (section.offset + index * section.entry_size)
  symbols ← read_symbol file strings entry symbols
  read_symbols file section strings left (index + 1) symbols

abbrev pub no_section : Elf32SectionHeader
no_section = record { type = 0; offset = 0; size = 0; link = 0; entry_size = 0 }

-- The symbol table after one section, if it is a symbol table.
unfoldable pub read_table :
    List ℕ → List Elf32SectionHeader → Elf32SectionHeader → Symbols → Result Symbols
unfolding read_symbols
read_table file sections section symbols =
    if not (section.type == section_symbol_table) || not (section.entry_size == 16)
    then ok symbols
    else (do
      throw_if (leb (length sections) section.link)
          (runtime_error "ELF symbol table has an invalid string table link")
      require_range file section.offset section.size
      read_symbols file section (get_or sections section.link no_section)
          (section.size / section.entry_size) 0 symbols)

unfoldable pub read_tables :
    List ℕ → List Elf32SectionHeader → List Elf32SectionHeader → Symbols → Result Symbols
unfolding read_table
read_tables file sections [] symbols = ok symbols
read_tables file sections (section ∷ rest) symbols = do
  symbols ← read_table file sections section symbols
  read_tables file sections rest symbols

abbrev pub is_magic : List ℕ → Bool
is_magic file =
    leb 4 (length file)
    && (get_or file 0 0 == 0x7f)
    && (get_or file 1 0 == 0x45)
    && (get_or file 2 0 == 0x4c)
    && (get_or file 3 0 == 0x46)

-- A file that is no ELF file is loaded at `raw_base` as it is.
unfoldable pub load_raw : List ℕ → ℕ → ElfImage
load_raw file raw_base = record {
  entry = raw_base;
  is_elf = false;
  memory = Memory.load empty raw_base file;
  symbols = [];
}

unfoldable pub load_elf : List ℕ → Result ElfImage
load_elf file = do
  header ← header_at file 0
  throw_if
      (not (header.ident_class == elf_class_32)
        || not (header.ident_data == elf_data_little_endian)
        || not (header.machine == machine_riscv))
      (runtime_error "ELF is not little-endian RV32")
  throw_if
      (not (header.program_header_entry_size == 32) || not (header.section_header_entry_size == 40))
      (runtime_error "unexpected ELF32 table entry size")
  memory ← load_segments file header header.program_header_count 0 empty
  sections ← read_sections file header header.section_header_count 0
  symbols ← read_tables file sections sections []
  ok (record { entry = header.entry; is_elf = true; memory = memory; symbols = symbols })

-- `load`: `none` is a file that cannot be opened.
unfoldable pub load : String → Option (List ℕ) → ℕ → Result ElfImage
unfolding load_raw load_elf
load path none raw_base = err (runtime_error (str_append "cannot open image: " path))
load path (some []) raw_base = err (runtime_error (str_append "image is empty: " path))
load path (some (b ∷ bytes)) raw_base =
    if is_magic (b ∷ bytes) then load_elf (b ∷ bytes) else ok (load_raw (b ∷ bytes) raw_base)
