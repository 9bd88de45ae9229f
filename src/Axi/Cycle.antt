-- ===== src/Axi/Cycle.antt =====
-- Whole cycles of the bus model: `drive`, then an evaluation of the core, then `update`.
use zircon_sim.Prelude.{
  ℕ, ◌<◌, ◌≡◌, refl, Bool, true, false, not, ◌&&◌, Option, none, some, arith, ltb, ◌==◌,
  if◌then◌else◌, ◌⊎◌, replicate,
}
use zircon_sim.Platform.Defs.{PlatformDevices}
use zircon_sim.Axi.Defs.{Ports, ReadTransaction, AxiMemory, read_of, random_ready, ready_if}
use zircon_sim.Axi.Drive.{supply, supply_beat, region_beat, ram_beat, device_beat, drive}
use zircon_sim.Axi.Protocol.{IsConsistent, SameControl}

-- What the ports promise about the state that `update` is called on, and the widths of the
-- request's length fields.
pub record Offered (s : AxiMemory) (cpu : Ports) : Type 0 where
  pub ar : cpu.ar_ready ≡ true → (cpu.ar_id < 2) × ((read_of s cpu.ar_id).active ≡ false)
  pub r : cpu.r_valid ≡ s.read_data_valid
  pub aw : cpu.aw_ready ≡ true → (s.write_active ≡ false) × (s.write_response_valid ≡ false)
  pub w : cpu.w_ready ≡ true → s.write_active ≡ true
  pub b : cpu.b_valid ≡ s.write_response_valid
  pub ar_len : cpu.ar_len < 256
  pub aw_len : cpu.aw_len < 256

-- The core's evaluation may change its own outputs. It leaves the inputs that `drive` set, and
-- keeps the read request's identifier, for which the request channel was made ready.
pub record Evaluates (before after : Ports) : Type 0 where
  pub ar_ready : after.ar_ready ≡ before.ar_ready
  pub ar_id : after.ar_id ≡ before.ar_id
  pub r_valid : after.r_valid ≡ before.r_valid
  pub r_last : after.r_last ≡ before.r_last
  pub aw_ready : after.aw_ready ≡ before.aw_ready
  pub w_ready : after.w_ready ≡ before.w_ready
  pub b_valid : after.b_valid ≡ before.b_valid
  pub ar_len : after.ar_len < 256
  pub aw_len : after.aw_len < 256

module _ (n : ℕ) where
  -- Supplying a beat touches the data registers and the devices only.
  record Supplied (s t : AxiMemory) (id : ℕ) : Type 0 where
    demand : t.demand ≡ s.demand
    prefetch : t.prefetch ≡ s.prefetch
    read_data_valid : t.read_data_valid ≡ true
    read_selected_id : t.read_selected_id ≡ id
    write_active : t.write_active ≡ s.write_active
    write_response_valid : t.write_response_valid ≡ s.write_response_valid
    write_length : t.write_length ≡ s.write_length
    write_beat : t.write_beat ≡ s.write_beat

  region_beat_control :
      (s : AxiMemory) (r : ReadTransaction) (platform : Option PlatformDevices)
      → s.read_data_valid ≡ true
      → Supplied s (region_beat n s r platform) s.read_selected_id
  unfolding region_beat ram_beat device_beat
  region_beat_control s r none e = ground arith
  region_beat_control s r (some p) e = ground arith

  supply_beat_control : (s : AxiMemory) (id : ℕ) → Supplied s (supply_beat n s id) id
  unfolding supply_beat
  supply_beat_control s id =
      let t = record s {
        read_selected_id = id;
        read_data = replicate n 0;
        read_data_valid = true;
        read_response = 0;
      } in
      let c = region_beat_control t (read_of s id) s.platform refl in
      record {
        demand = c.demand;
        prefetch = c.prefetch;
        read_data_valid = c.read_data_valid;
        read_selected_id = c.read_selected_id;
        write_active = c.write_active;
        write_response_valid = c.write_response_valid;
        write_length = c.write_length;
        write_beat = c.write_beat;
      }

  -- Drawing a random number touches the generator only.
  random_ready_control : (s : AxiMemory) → SameControl s (random_ready s).0
  unfolding random_ready
  random_ready_control s = ground arith

  ready_if_control : (test : Bool) (s : AxiMemory) → SameControl s (ready_if test s).0
  unfolding ready_if
  ready_if_control true s = random_ready_control s
  ready_if_control false s = ground arith

  -- What `supply` keeps, and the transaction that its beat is for.
  record AfterSupply (s t : AxiMemory) : Type 0 where
    demand : t.demand ≡ s.demand
    prefetch : t.prefetch ≡ s.prefetch
    selected :
        ((t.read_data_valid ≡ s.read_data_valid) × (t.read_selected_id ≡ s.read_selected_id))
        ⊎ ((t.read_selected_id < 2) × ((read_of s t.read_selected_id).active ≡ true))
    write_active : t.write_active ≡ s.write_active
    write_response_valid : t.write_response_valid ≡ s.write_response_valid
    write_length : t.write_length ≡ s.write_length
    write_beat : t.write_beat ≡ s.write_beat

  selected_id : AxiMemory → ℕ
  selected_id s = if s.demand.active then 0 else 1

  supply-AfterSupply : (s : AxiMemory) → AfterSupply s (supply n s)
  unfolding supply selected_id
  supply-AfterSupply s =
      let d = (random_ready s).0 in
      ground (
        arith,
        random_ready_control s,
        supply_beat_control s (selected_id s),
        supply_beat_control d (selected_id s),
      )

  ready_if-true : (test : Bool) (s : AxiMemory) → (ready_if test s).1 ≡ true → test ≡ true
  unfolding ready_if
  ready_if-true true s e = refl
  ready_if-true false s e = e

  -- The state after `drive` and the inputs that it set fit each other.
  pub drive_lem :
      (s : AxiMemory) (before after : Ports)
      → Evaluates (drive n s before).1 after
      → Offered (drive n s before).0 after
  unfolding drive
  drive_lem s before after v =
      let s₁ = supply n s in
      let test₁ = ltb before.ar_id 2 && not (read_of s₁ before.ar_id).active in
      let s₂ = (ready_if test₁ s₁).0 in
      let test₂ = not s₂.write_active && not s₂.write_response_valid in
      let s₃ = (ready_if test₂ s₂).0 in
      let test₃ = s₃.write_active && s₃.write_beat == 0 in
      ground (
        arith,
        v,
        ready_if-true test₁ s₁,
        ready_if-true test₂ s₂,
        ready_if_control test₁ s₁,
        ready_if_control test₂ s₂,
        ready_if_control test₃ s₃,
      )

  -- `drive` keeps the invariant.
  pub drive-IsConsistent :
      (s : AxiMemory) (cpu : Ports) → IsConsistent s → IsConsistent (drive n s cpu).0
  unfolding drive
  drive-IsConsistent s cpu c =
      let s₁ = supply n s in
      let test₁ = ltb cpu.ar_id 2 && not (read_of s₁ cpu.ar_id).active in
      let s₂ = (ready_if test₁ s₁).0 in
      let test₂ = not s₂.write_active && not s₂.write_response_valid in
      let s₃ = (ready_if test₂ s₂).0 in
      let test₃ = s₃.write_active && s₃.write_beat == 0 in
      ground (
        arith,
        c,
        supply-AfterSupply s,
        ready_if_control test₁ s₁,
        ready_if_control test₂ s₂,
        ready_if_control test₃ s₃,
      )
