-- ===== src/Tests/Devices.antt =====
-- The devices at concrete inputs.
use zircon_sim.Prelude.{
  ◌+◌, ◌-◌, ◌*◌, ◌/◌, ◌%◌, ◌^◌, ◌≤◌, ◌↔◌, ◌≡◌, min, refl, true, false, [], ◌∷◌, ◌++◌, some,
  if◌then◌else◌, arith,
}
use zircon_sim.Result.{ok}
use zircon_sim.Platform.Defs.{PlatformDevices, timer_divider, uart_base, append_uart_input}
use zircon_sim.Platform.Bus.{read_bus, write_bus, timer_interrupt}
use zircon_sim.Platform.State
use zircon_sim.Platform.Restore.{restore-save}
use zircon_sim.Platform.Timer.{ticks, ticks_lem, timer_compare, set_timer_compare}
use zircon_sim.Platform.Uart.{after_reads, reads-append, send, send_lem}

abbrev booted : PlatformDevices
booted = record {
  mtime = 41;
  mtimecmp = 2 ^ 64 - 1;
  timer_subcycle = 3;
  uart_ier = 1;
  uart_lcr = 3;
  uart_mcr = 0;
  uart_dll = 27;
  uart_dlm = 0;
  uart_input = [];
  uart_output = 0x6f ∷ 0x6b ∷ [];
  emit_uart = true;
  console = [];
}

abbrev fresh : PlatformDevices
fresh = record booted { mtime = 0; uart_output = []; emit_uart = false }

restore-save_example :
    State.restore fresh (State.save booted ++ 5 ∷ [])
    ≡ ok (record booted { emit_uart = false; console = [] }, 5 ∷ [])
restore-save_example = restore-save booted fresh (5 ∷ []) (record {
  mtime = omega arith;
  mtimecmp = omega arith;
  subcycle = omega arith;
  ier = omega arith;
  lcr = omega arith;
  mcr = omega arith;
  dll = omega arith;
  dlm = omega arith;
  input_bytes = tt;
  input_size = omega arith;
  output_size = omega arith;
})

ticks_lem_example : ticks 40 booted ≡ record booted {
  timer_subcycle = (3 + 40) % timer_divider;
  mtime = min (2 ^ 64 - 1) (41 + (3 + 40) / timer_divider);
}
ticks_lem_example = ticks_lem 40 booted (omega arith) (omega arith)

set_timer_compare_example :
    let q = (write_bus (timer_compare + 4) 0 0xf (write_bus timer_compare 40 0xf booted).0).0 in
    (q ≡ record booted { mtimecmp = 40 + 0 * 2 ^ 32 })
    × ((timer_interrupt q ≡ true) ↔ (40 + 0 * 2 ^ 32 ≤ 41))
set_timer_compare_example = set_timer_compare booted 40 0 (omega arith) (omega arith) (omega arith)

-- A character waits already.
abbrev waiting : PlatformDevices
waiting = record booted { uart_input = 0x67 ∷ [] }

reads-append_example :
    (after_reads (0x67 ∷ 0x68 ∷ 0x69 ∷ []) (append_uart_input waiting (0x68 ∷ 0x69 ∷ []))
      ≡ some (record waiting { uart_input = [] }))
    × (read_bus uart_base 1 (record waiting { uart_input = [] })
        ≡ (record waiting { uart_input = [] }, some 0))
reads-append_example =
    reads-append waiting (0x68 ∷ 0x69 ∷ []) refl (omega arith, (omega arith, (omega arith, tt)))

send_lem_example : send (0x68 ∷ 0x69 ∷ []) booted ≡ record booted {
  uart_output = (0x6f ∷ 0x6b ∷ []) ++ 0x68 ∷ 0x69 ∷ [];
  console = if true then [] ++ 0x68 ∷ 0x69 ∷ [] else [];
}
send_lem_example = send_lem (0x68 ∷ 0x69 ∷ []) booted refl (omega arith, (omega arith, tt))
