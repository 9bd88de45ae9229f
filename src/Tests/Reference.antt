-- ===== src/Tests/Reference.antt =====
-- The reference model at concrete inputs.
use zircon_sim.Prelude.{ℕ, ◌≡◌, refl, true, List, [], ◌∷◌, none, some, arith}
use zircon_sim.Result.{Result, ok, err}
use zircon_sim.Result.Laws.{Returns}
use zircon_sim.Memory.{empty}
use zircon_sim.Spike.{SpikeTrap}
use zircon_sim.Spike.Simif.{SpikeBus, memory_byte, mmio_load, mmio_store}
use zircon_sim.Spike.Laws.{stored, mmio_load-mmio_store}
use zircon_sim.Spike.Commit.{fresh_commit, log_writes}
use zircon_sim.Spike.Writes.{IsLogged, log_writes-IsLogged}
use zircon_sim.Spike.Traps.{Csr, medeleg, stvec, mtvec, inject_interrupt, inject_page_fault}
use zircon_sim.Spike.Accepted.{TakesInterrupt, inject_interrupt-TakesInterrupt}
use zircon_sim.Tests.Cpu.{Cpu, cpu, cpu_laws}

abbrev plain_bus : SpikeBus
plain_bus = record { memory = empty; platform = none }

mmio_load-mmio_store_example :
    let (t, wrote) = mmio_store plain_bus 0x80000002 (0x34 ∷ 0x12 ∷ []) in
    (wrote ≡ true)
    × (mmio_load t 0x80000002 2 ≡ (t, some (0x34 ∷ 0x12 ∷ [])))
    × ((b : ℕ) → memory_byte t b ≡ stored 0x80000002 (0x34 ∷ 0x12 ∷ []) b (memory_byte plain_bus b))
mmio_load-mmio_store_example =
    mmio_load-mmio_store plain_bus 0x80000002 (0x34 ∷ 0x12 ∷ []) (unfold empty in tt) (ground arith)
      refl

-- `x0`, a control register and `x5`.
abbrev three_writes : List (ℕ × ℕ)
three_writes = (0, 9) ∷ (0x3004, 1) ∷ (0x50, 7) ∷ []

log_writes-IsLogged_example :
    Returns
      (λ commit. IsLogged (fresh_commit 0x80000000) commit three_writes)
      (log_writes (fresh_commit 0x80000000) three_writes)
log_writes-IsLogged_example = log_writes-IsLogged (fresh_commit 0x80000000) three_writes refl

abbrev register_of : Csr → ℕ
register_of medeleg = 0x2000
register_of stvec = 0x80000200
register_of mtvec = 0x80000100
register_of _ = 0

-- A user program is at this address; load page faults are delegated, and a supervisor timer interrupt is
-- enabled beside another.
abbrev running : Cpu
running = record {
  at = 0x80000040;
  level = 0;
  registers = λ c. register_of c;
  enabled = 0x222;
  pending = 0;
}

abbrev timer : SpikeTrap
timer = record { cause = 0x80000005; epc = 0x80000040; tval = 0; target_privilege = 1 }

inject_interrupt-TakesInterrupt_example :
    Returns (TakesInterrupt cpu timer running) (inject_interrupt cpu running timer)
inject_interrupt-TakesInterrupt_example =
    inject_interrupt-TakesInterrupt cpu cpu_laws running (omega arith) timer

abbrev load_fault : SpikeTrap
load_fault = record { cause = 13; epc = 0x80000040; tval = 0x1000; target_privilege = 1 }

-- Both are accepted, and enter the supervisor's handler.
abbrev handler_of : Result Cpu → ℕ
handler_of (ok p) = p.at
handler_of (err thrown) = 0

timer_taken : handler_of (inject_interrupt cpu running timer) ≡ 0x80000200
unfolding inject_interrupt
timer_taken = refl

load_fault_taken : handler_of (inject_page_fault cpu running load_fault) ≡ 0x80000200
unfolding inject_page_fault
load_fault_taken = refl
