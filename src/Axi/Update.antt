-- ===== src/Axi/Update.antt =====
-- `AXIMemory::update`: the handshakes of a cycle, in the order of the source.
use zircon_sim.Prelude.{
  ℕ, zero, suc, ◌+◌, ◌-◌, ◌*◌, ◌/◌, bit_and, Bool, true, false, not, ◌&&◌, ◌||◌, List, [], ◌∷◌,
  ◌++◌, Option, none, some, ◌==◌, if◌then◌else◌, get_or,
}
use zircon_sim.Word.{u8, u32, u64, bit_not, ◌<<<◌, ◌>>>◌}
use zircon_sim.Memory.{SparseMemory, write32}
use zircon_sim.ExitMonitor.{observe_write}
use zircon_sim.Platform.Defs.{PlatformDevices, is_ram, is_device, is_write_combine}
use zircon_sim.Platform.Bus.{write_bus}
use zircon_sim.Axi.Defs.{Ports, ReadTransaction, AxiMemory, read_of, set_read}

abbrev pub uart_address : ℕ
uart_address = 0xa00003f8

-- A read request is taken.
unfoldable pub accept_ar : AxiMemory → Ports → AxiMemory
accept_ar s cpu =
    if cpu.ar_valid && cpu.ar_ready
    then set_read s cpu.ar_id (record {
      active = true;
      address = cpu.ar_addr;
      size = u64 (1 <<< cpu.ar_size);
      length = cpu.ar_len;
      beat = 0;
    })
    else s

-- The transaction after one of its beats was taken.
unfoldable pub next_beat : ReadTransaction → ReadTransaction
next_beat read =
    if read.beat == read.length
    then record read { active = false }
    else record read { beat = u8 (read.beat + 1); address = u64 (read.address + read.size) }

-- A read beat is taken.
unfoldable pub accept_r : AxiMemory → Ports → AxiMemory
unfolding next_beat
accept_r s cpu =
    if cpu.r_valid && cpu.r_ready
    then set_read (record s { read_data_valid = false }) s.read_selected_id
        (next_beat (read_of s s.read_selected_id))
    else s

-- A write request is taken.
unfoldable pub accept_aw : AxiMemory → Ports → AxiMemory
accept_aw s cpu =
    if cpu.aw_valid && cpu.aw_ready
    then record s {
      write_active = true;
      write_address = cpu.aw_addr;
      write_length = cpu.aw_len;
      write_size = u64 (1 <<< cpu.aw_size);
      write_id = cpu.aw_id;
      write_beat = 0;
      write_response = 0;
    }
    else s

-- The strobed words of a beat, for the words left.
unfoldable pub write_words : ℕ → ℕ → List ℕ → ℕ → ℕ → SparseMemory → SparseMemory
write_words base strobe data' zero word m = m
write_words base strobe data' (suc left) word m =
    write_words base strobe data' left (word + 1) (
      write32 m (u32 (base + word * 4)) (get_or data' word 0) (bit_and (strobe >>> (4 * word)) 0xf))

module _ (bus_words : ℕ) where
  abbrev pub lane_byte : ℕ → ℕ
  lane_byte address = bit_and address (4 * bus_words - 1)

  -- `strobe >> (laneByte & ~3u)`, cut to the four strobes of one word
  abbrev pub narrow_strobe : ℕ → ℕ → ℕ
  narrow_strobe address strobe =
      u8 (bit_and (strobe >>> bit_and (lane_byte address) (bit_not 32 3)) 0xf)

  abbrev pub narrow_data : ℕ → List ℕ → ℕ
  narrow_data address words = get_or words (lane_byte address / 4) 0

  unfoldable pub ram_write : AxiMemory → ℕ → Ports → AxiMemory
  ram_write s address cpu = record s {
    memory =
        write_words (bit_and address (bit_not 32 (4 * bus_words - 1))) cpu.w_strb cpu.w_data
          bus_words 0 s.memory;
  }

  unfoldable pub device_write : AxiMemory → PlatformDevices → ℕ → Ports → AxiMemory
  device_write s p address cpu =
      let (p', wrote) =
        write_bus address (narrow_data address cpu.w_data) (narrow_strobe address cpu.w_strb) p in
      if not (s.write_length == 0)
      then record s { write_response = 2 }
      else if wrote
      then record s { platform = some p' }
      else record s { platform = some p'; write_response = 2 }

  -- The effect of a beat, by the region of its address.
  unfoldable pub region_write : AxiMemory → Option PlatformDevices → ℕ → Ports → AxiMemory
  region_write s none address cpu = ram_write s address cpu
  region_write s (some p) address cpu =
      if is_write_combine address (u64 (s.write_size * (s.write_length + 1)))
      then ram_write s address cpu
      else if is_device address s.write_size
      then device_write s p address cpu
      else if not (is_ram address s.write_size)
      then record s { write_response = 3 }
      else ram_write s address cpu

  abbrev has_platform : AxiMemory → Bool
  has_platform s = elim s.platform [ none ↦ false | some p ↦ true ]

  -- Without devices, the low byte at the legacy UART address is printed.
  unfoldable pub legacy_uart : AxiMemory → ℕ → Ports → AxiMemory
  legacy_uart s address cpu =
      if not (has_platform s)
        && (address == uart_address)
        && not (bit_and (narrow_strobe address cpu.w_strb) 1 == 0)
      then record s { console = s.console ++ bit_and (narrow_data address cpu.w_data) 0xff ∷ [] }
      else s

  unfoldable pub observe_exit : AxiMemory → ℕ → Ports → AxiMemory × Option ℕ
  observe_exit s address cpu = elim s.exit [
    | none ↦ (s, none)
    | some monitor ↦
        let (monitor', result) =
          observe_write monitor address (narrow_data address cpu.w_data)
            (narrow_strobe address cpu.w_strb) in
        (record s { exit = some monitor' }, result)
  ]

  -- The burst after one of its beats.
  unfoldable pub end_beat : AxiMemory → Ports → AxiMemory
  end_beat s cpu =
      if cpu.w_last || s.write_beat == s.write_length
      then record s { write_active = false; write_response_valid = true }
      else record s {
        write_beat = u8 (s.write_beat + 1);
        write_address = u64 (s.write_address + s.write_size);
      }

  -- A write beat is taken; the value is an exit code.
  unfoldable pub accept_w : AxiMemory → Ports → AxiMemory × Option ℕ
  unfolding region_write ram_write device_write legacy_uart observe_exit end_beat
  accept_w s cpu =
      let address = u32 s.write_address in
      let written = legacy_uart (region_write s s.platform address cpu) address cpu in
      let (observed, result) = observe_exit written address cpu in
      if cpu.w_valid && cpu.w_ready then (end_beat observed cpu, result) else (s, none)

  -- A write response is taken.
  unfoldable pub accept_b : AxiMemory → Ports → AxiMemory
  accept_b s cpu =
      if cpu.b_valid && cpu.b_ready then record s { write_response_valid = false } else s

  -- An exit code returns before the write response is looked at.
  unfoldable pub end_cycle : AxiMemory → Ports → Option ℕ → AxiMemory × Option ℕ
  unfolding accept_b
  end_cycle s cpu none = (accept_b s cpu, none)
  end_cycle s cpu (some code) = (s, some code)

  unfoldable pub update : AxiMemory → Ports → AxiMemory × Option ℕ
  unfolding accept_ar accept_r accept_aw accept_w end_cycle
  update s cpu =
      let (s', result) = accept_w (accept_aw (accept_r (accept_ar s cpu) cpu) cpu) cpu in
      end_cycle s' cpu result
