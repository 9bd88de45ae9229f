-- ===== src/Spike.antt =====
-- The reference model of the difference test (include/SpikeReference.h, src/SpikeReference.cc): its
-- data, and the tests on an instruction. The addresses that riscv/encoding.h gives to the control
-- registers belong to the Spike library and are a parameter.
pub mod Laws
pub mod Simif
pub mod Commit
pub mod Writes
pub mod Traps
pub mod TrapLaws
pub mod Accepted
pub mod Faults
pub mod PageFault
use zircon_sim.Prelude.{
  ℕ, bit_and, Bool, true, false, not, ◌||◌, ◌&&◌, List, [], ◌∷◌, Option, leb, ◌==◌, if◌then◌else◌,
}
use zircon_sim.Word.{◌>>>◌}

pub record SpikeVectorState : Type 0 where
  pub vl : ℕ
  pub vtype : ℕ
  pub vstart : ℕ
  pub vxrm : ℕ
  pub vxsat : Bool
  pub fflags : ℕ

pub record SpikeVectorRegister : Type 0 where
  pub index : ℕ
  pub words : List ℕ

pub record SpikeVectorCommit : Type 0 where
  pub before : SpikeVectorState
  pub after : SpikeVectorState
  pub mask : List ℕ
  pub selection_mask : List ℕ
  pub registers : List SpikeVectorRegister
  pub stores : List (ℕ × ℕ)

pub record SpikeCommit : Type 0 where
  pub pc : ℕ
  pub instruction : ℕ
  pub next_pc : ℕ
  pub write_valid : Bool
  pub is_fp : Bool
  pub rd : ℕ
  pub value : ℕ
  pub vector : Option SpikeVectorCommit

pub record SpikeArchitecturalState : Type 0 where
  pub integer : List ℕ
  pub floating : List ℕ

pub record SpikeTrap : Type 0 where
  pub cause : ℕ
  pub epc : ℕ
  pub tval : ℕ
  pub target_privilege : ℕ

-- The constants of riscv/encoding.h that the tests below name.
pub record Encoding : Type 0 where
  pub mhpmevent3 : ℕ
  pub mhpmevent31 : ℕ
  pub mhpmcounter3 : ℕ
  pub mhpmcounter31 : ℕ
  pub mhpmcounter3h : ℕ
  pub mhpmcounter31h : ℕ
  pub hpmcounter3 : ℕ
  pub hpmcounter31 : ℕ
  pub hpmcounter3h : ℕ
  pub hpmcounter31h : ℕ
  pub fflags : ℕ
  pub frm : ℕ
  pub fcsr : ℕ
  pub sstatus : ℕ
  pub sie : ℕ
  pub stvec : ℕ
  pub scounteren : ℕ
  pub sscratch : ℕ
  pub sepc : ℕ
  pub scause : ℕ
  pub stval : ℕ
  pub sip : ℕ
  pub satp : ℕ
  pub mstatus : ℕ
  pub misa : ℕ
  pub medeleg : ℕ
  pub mideleg : ℕ
  pub mie : ℕ
  pub mtvec : ℕ
  pub mcounteren : ℕ
  pub mstatush : ℕ
  pub mcountinhibit : ℕ
  pub mscratch : ℕ
  pub mepc : ℕ
  pub mcause : ℕ
  pub mtval : ℕ
  pub mip : ℕ
  pub mcycle : ℕ
  pub minstret : ℕ
  pub mcycleh : ℕ
  pub minstreth : ℕ
  pub cycle : ℕ
  pub time : ℕ
  pub instret : ℕ
  pub cycleh : ℕ
  pub timeh : ℕ
  pub instreth : ℕ
  pub mvendorid : ℕ
  pub marchid : ℕ
  pub mimpid : ℕ
  pub mhartid : ℕ
  pub mconfigptr : ℕ

-- A `switch` whose listed cases return true.
abbrev pub is_case : ℕ → List ℕ → Bool
is_case address [] = false
is_case address (label ∷ labels) = (address == label) || is_case address labels

-- The registers that both the counters and the identification read differently on the core.
abbrev pub unsynchronized : Encoding → List ℕ
unsynchronized e =
    e.mvendorid ∷ e.marchid ∷ e.mimpid ∷ e.mhartid ∷ e.mconfigptr ∷ e.mcycle ∷ e.minstret
    ∷ e.mcycleh ∷ e.minstreth ∷ e.cycle ∷ e.time ∷ e.instret ∷ e.cycleh ∷ e.timeh ∷ e.instreth ∷ []

-- The cases of `dutSupportsCsr` in the build without vectors.
abbrev pub supported : Encoding → List ℕ
supported e =
    e.fflags ∷ e.frm ∷ e.fcsr ∷ e.sstatus ∷ e.sie ∷ e.stvec ∷ e.scounteren ∷ e.sscratch ∷ e.sepc
    ∷ e.scause ∷ e.stval ∷ e.sip ∷ e.satp ∷ e.mstatus ∷ e.misa ∷ e.medeleg ∷ e.mideleg ∷ e.mie
    ∷ e.mtvec ∷ e.mcounteren ∷ e.mstatush ∷ e.mcountinhibit ∷ e.mscratch ∷ e.mepc ∷ e.mcause
    ∷ e.mtval ∷ e.mip ∷ e.mcycle ∷ e.minstret ∷ e.mcycleh ∷ e.minstreth ∷ e.cycle ∷ e.time
    ∷ e.instret ∷ e.cycleh ∷ e.timeh ∷ e.instreth ∷ e.mvendorid ∷ e.marchid ∷ e.mimpid ∷ e.mhartid
    ∷ e.mconfigptr ∷ []

abbrev pub between : ℕ → ℕ → ℕ → Bool
between low high address = leb low address && leb address high

unfoldable pub dut_supports_csr : Encoding → ℕ → Bool
dut_supports_csr e address =
    if between e.mhpmevent3 e.mhpmevent31 address
      || between e.mhpmcounter3 e.mhpmcounter31 address
      || between e.mhpmcounter3h e.mhpmcounter31h address
      || between e.hpmcounter3 e.hpmcounter31 address
      || between e.hpmcounter3h e.hpmcounter31h address
    then true
    else is_case address (supported e)

-- The instruction is no system instruction, or one without a control register.
abbrev pub is_no_csr : ℕ → Bool
is_no_csr instruction =
    not (bit_and instruction 0x7f == 0x73) || bit_and (instruction >>> 12) 0x7 == 0

unfoldable pub accesses_interrupt_enable_csr : Encoding → ℕ → Bool
accesses_interrupt_enable_csr e instruction =
    if is_no_csr instruction
    then false
    else (instruction >>> 20 == e.mie) || (instruction >>> 20 == e.sie)

unfoldable pub requires_synchronization : Encoding → ℕ → Bool
requires_synchronization e instruction =
    if is_no_csr instruction then false else is_case (instruction >>> 20) (unsynchronized e)
