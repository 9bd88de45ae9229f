-- ===== src/Axi/Protocol.antt =====
-- The invariant of the bus model across a cycle: what `drive` offers, what `update` takes.
use zircon_sim.Prelude.{
  ℕ, ◌+◌, ◌<◌, ◌≤◌, ◌≡◌, true, false, not, ◌&&◌, ◌||◌, Option, none, some, arith, ◌==◌,
  if◌then◌else◌,
}
use zircon_sim.Word.{u8, u32}
use zircon_sim.Platform.Defs.{PlatformDevices}
use zircon_sim.Axi.Defs.{Ports, ReadTransaction, AxiMemory, read_of}
use zircon_sim.Axi.Update.{
  accept_w, end_beat, region_write, ram_write, device_write, legacy_uart, observe_exit,
}

-- A transaction's beat counter stays within its burst.
pub record IsRead (r : ReadTransaction) : Type 0 where
  pub bounded : r.length < 256
  pub within : r.beat ≤ r.length

-- A beat that waits belongs to an active transaction; the write channel collects data or owes a
-- response, never both.
pub record IsConsistent (s : AxiMemory) : Type 0 where
  pub demand : IsRead s.demand
  pub prefetch : IsRead s.prefetch
  pub selected : s.read_selected_id < 2
  pub supplied : s.read_data_valid ≡ true → (read_of s s.read_selected_id).active ≡ true
  pub write_bounded : s.write_length < 256
  pub write_within : s.write_beat ≤ s.write_length
  pub exclusive : (s.write_active && s.write_response_valid) ≡ false

-- The state that the invariant speaks of is the same in both.
pub record SameControl (s t : AxiMemory) : Type 0 where
  pub demand : t.demand ≡ s.demand
  pub prefetch : t.prefetch ≡ s.prefetch
  pub read_data_valid : t.read_data_valid ≡ s.read_data_valid
  pub read_selected_id : t.read_selected_id ≡ s.read_selected_id
  pub write_active : t.write_active ≡ s.write_active
  pub write_response_valid : t.write_response_valid ≡ s.write_response_valid
  pub write_length : t.write_length ≡ s.write_length
  pub write_beat : t.write_beat ≡ s.write_beat

module _ (n : ℕ) where
  region_write_control :
      (s : AxiMemory) (platform : Option PlatformDevices) (address : ℕ) (cpu : Ports)
      → SameControl s (region_write n s platform address cpu)
  unfolding region_write ram_write device_write
  region_write_control s none address cpu = ground arith
  region_write_control s (some p) address cpu = ground arith

  legacy_uart_control :
      (s : AxiMemory) (address : ℕ) (cpu : Ports) → SameControl s (legacy_uart n s address cpu)
  unfolding legacy_uart
  legacy_uart_control s address cpu = ground arith

  observe_exit_control :
      (s : AxiMemory) (address : ℕ) (cpu : Ports) → SameControl s (observe_exit n s address cpu).0
  unfolding observe_exit
  observe_exit_control s address cpu = ground arith

  beat_control :
      (s : AxiMemory) (address : ℕ) (cpu : Ports)
      → SameControl s
          (observe_exit n
            (legacy_uart n (region_write n s s.platform address cpu) address cpu)
            address
            cpu).0
  beat_control s address cpu =
      let a = region_write n s s.platform address cpu in
      let b = legacy_uart n a address cpu in
      ground (
        arith,
        region_write_control s s.platform address cpu,
        legacy_uart_control a address cpu,
        observe_exit_control b address cpu,
      )

  -- What a cycle's write handshake does to the control state.
  pub record AfterBeat (s t : AxiMemory) (cpu : Ports) : Type 0 where
    pub demand : t.demand ≡ s.demand
    pub prefetch : t.prefetch ≡ s.prefetch
    pub read_data_valid : t.read_data_valid ≡ s.read_data_valid
    pub read_selected_id : t.read_selected_id ≡ s.read_selected_id
    pub write_length : t.write_length ≡ s.write_length
    pub write_active : t.write_active ≡ (
        if cpu.w_valid && cpu.w_ready && (cpu.w_last || s.write_beat == s.write_length)
        then false
        else s.write_active)
    pub write_response_valid : t.write_response_valid ≡ (
        if cpu.w_valid && cpu.w_ready && (cpu.w_last || s.write_beat == s.write_length)
        then true
        else s.write_response_valid)
    pub write_beat : t.write_beat ≡ (
        if cpu.w_valid && cpu.w_ready && not (cpu.w_last || s.write_beat == s.write_length)
        then u8 (s.write_beat + 1)
        else s.write_beat)

  pub accept_w-AfterBeat : (s : AxiMemory) (cpu : Ports) → AfterBeat s (accept_w n s cpu).0 cpu
  unfolding accept_w end_beat
  accept_w-AfterBeat s cpu = ground (arith, beat_control s (u32 s.write_address) cpu)
