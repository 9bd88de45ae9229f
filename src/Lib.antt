-- ===== src/Lib.antt =====
-- ZirconSim: a verification library for the simulator of the Zircon core. It models the C++ code
-- that surrounds the generated core: the memory and devices behind its bus, the loader of the program
-- image, the checkpoint format, the statistics, the simulation loop with its comparison of commits, the
-- reference that it compares with, and the older reference interpreter.
--
-- How the parts interact. `main` parses the options (src/main.cc), loads an image into a sparse memory
-- (src/ElfImage.cc) and builds the devices (src/PlatformDevices.cc) and the bus model
-- (src/AXIMemory.cc) on it. Each cycle it calls `AXIMemory::drive` to set the inputs of the core,
-- evaluates the core, and calls `AXIMemory::update` to take the handshakes, which reads and writes the
-- memory and the devices, and reports an exit code when the program stores one to `tohost`. The lanes
-- that retire are compared with the commits of the reference (src/SpikeReference.cc), and the loop ends
-- at a pass marker, an exit, a stall, a difference or the limit of cycles. Checkpoints
-- (src/Checkpoint.cc) save and restore every part.
--
-- Which file models which part:
--   Word, Word/*            casts, shifts and masks of the machine integers, as arithmetic
--   Result                  exceptions as values
--   Rng                     include/DeterministicRng.h
--   Memory, Memory/*        SparseMemory of include/ElfImage.h and src/ElfImage.cc; State is save and
--                           restore
--   ElfImage/*              ElfImage::load, likewise: Format is the structures and the guarded access to
--                           them, Load the loader
--   ExitMonitor             TestExitMonitor, likewise
--   Checkpoint              include/Checkpoint.h and src/Checkpoint.cc
--   Platform/*              PlatformDevices: Defs is readByte and writeByte with the state, Bus the bus
--                           accesses and the timer, State is save and restore
--   Axi/*                   AXIMemory: Defs is the ports and the state, Drive is drive, Update is update,
--                           State is save and restore
--   Statistic, Statistic/*  Statistic::observeInstruction; Snapshot is the performance counters,
--                           save and restore
--   Options, Options/*      parseOptions and waveEnabled of src/main.cc
--   RetiredStore            decodeRetiredStore and storeCoversAddress of src/main.cc
--   Run, Run/*              main of src/main.cc: Run is the state and the interfaces, Lane a retired lane,
--                           Outcome the endings, Cycle a cycle, Loop the loop, Table the maps, History
--                           printRecentCommits
--   Session, Session/*      saveCheckpoint and restoreCheckpoint of src/main.cc: Codec is lists and optional
--                           values, State the loop's state, Host the head and the whole host file
--   Spike, Spike/*          SpikeReference: Spike is the data and the tests on an instruction, Simif the
--                           memory, Commit next, Traps injectInterrupt and injectPageFault, TrapLaws
--                           what the traps rely on of Spike's registers
--   Simulator/*             Simulator: Alu is the arithmetic, Decode the fields and immediates, Step the
--                           handlers and step
--   Tests/*                 the theorems at concrete inputs
-- The other files hold lemmas and theorems, and are named for what they prove.
--
-- State and operations. A class is a record of its fields and each method a function from the state to
-- the state, with its result beside it. What the code prints to `std::cout` is a list of bytes in the
-- state. An `unordered_map` is an association list, whose order only `save` observes. A `uint32_t` is a
-- native number whose wrap-around is written out. A method that throws returns an error; an operation
-- that C++ leaves undefined, in the interpreter's shifts and quotients, returns nothing. A checkpoint
-- file is its bytes: writers give bytes, readers take them from the front, on a little-endian host.
--
-- Bounds. Each loop of the source but one runs a number of times that is known when it starts, and is a
-- recursion on the rounds left, or on the list that it reads; the loop of `main` has `max_cycles` rounds
-- less the first cycle. The exception is `SpikeReference::next`, which goes on while the processor traps
-- and takes fuel: more fuel than there are traps is enough.
--
-- Parameters. The generated core is a client: the bus model reads and sets its ports, and a run lets
-- it set its own outputs between `drive` and `update`. The loop takes it, the reference and the host
-- (the terminal, the writing of a checkpoint) as records of their operations, and a checkpoint the
-- save and restore of the reference, which its round trip leaves out. The bytes that the compiler
-- leaves between the members of a saved structure are parameters. The processor inside the reference
-- is Spike's, as are the addresses of the control registers. The memory accesses of the interpreter,
-- `refMemoryRead` and `refMemoryWrite`, are declared nowhere in the repository and are parameters.
-- The bus width of the build is the number of its 32-bit words. `strtoull` and the build's switches
-- are parameters of the options. The loop and the reference are those of the build without vectors
-- and with checkpoints.
--
-- Not modelled: the construction of the processor, the vector records and the checkpoint of
-- src/SpikeReference.cc; the comparison of vectors, the RTL file of a checkpoint, its directories and
-- renames, the traces, the progress reporter and the terminal output of src/main.cc; src/Emulator.cc,
-- which belongs to an older bus model; the report of src/Statistic.cc; opening, flushing and closing files.
pub mod Prelude
pub mod Word
pub mod Result
pub mod Rng
pub mod Memory
pub mod ExitMonitor
pub mod Checkpoint
pub mod Platform
pub mod Axi
pub mod Statistic
pub mod Simulator
pub mod Spike
pub mod Run
pub mod Session
pub mod ElfImage
pub mod Options
pub mod RetiredStore
pub mod Tests
