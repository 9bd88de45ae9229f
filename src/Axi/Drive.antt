-- ===== src/Axi/Drive.antt =====
-- `AXIMemory::drive`: supply the next read beat, and set the core's inputs.
use zircon_sim.Prelude.{
  ℕ, zero, suc, ◌+◌, ◌-◌, ◌*◌, ◌/◌, bit_and, true, not, ◌&&◌, ◌||◌, List, [], ◌∷◌, Option, none,
  some, ltb, ◌==◌, if◌then◌else◌, replicate, set,
}
use zircon_sim.Word.{u32, bit_not}
use zircon_sim.Memory.{SparseMemory, read32}
use zircon_sim.Platform.Defs.{PlatformDevices, is_ram, is_device, is_write_combine}
use zircon_sim.Platform.Bus.{read_bus}
use zircon_sim.Axi.Defs.{Ports, ReadTransaction, AxiMemory, read_of, random_ready, ready_if}

-- The words of memory from `base` on, for the words left.
unfoldable pub read_words : SparseMemory → ℕ → ℕ → ℕ → List ℕ
read_words m base zero word = []
read_words m base (suc left) word =
    read32 m (u32 (base + word * 4)) ∷ read_words m base left (word + 1)

module _ (bus_words : ℕ) where
  -- `address & ~uint32_t{kBusBytes - 1}`
  abbrev pub bus_base : ℕ → ℕ
  bus_base address = bit_and address (bit_not 32 (4 * bus_words - 1))

  unfoldable pub ram_beat : AxiMemory → ReadTransaction → AxiMemory
  ram_beat s read = record s {
    read_data = read_words s.memory (bus_base (u32 read.address)) bus_words 0;
  }

  -- A device answers single beats only.
  unfoldable pub device_beat : AxiMemory → PlatformDevices → ReadTransaction → AxiMemory
  device_beat s p read =
      let address = u32 read.address in
      let (p', value) = read_bus address read.size p in
      if not (read.length == 0) then record s { read_response = 2 } else elim value [
        | none ↦ record s { platform = some p'; read_response = 2 }
        | some device_data ↦ record s {
          platform = some p';
          read_data = set s.read_data (bit_and address (4 * bus_words - 1) / 4) device_data;
        }
      ]

  -- The beat of a transaction, by the region of its address.
  unfoldable pub region_beat : AxiMemory → ReadTransaction → Option PlatformDevices → AxiMemory
  region_beat s read none = ram_beat s read
  region_beat s read (some p) =
      if is_device read.address read.size
      then device_beat s p read
      else if is_write_combine read.address read.size
      then s
      else if not (is_ram read.address read.size)
      then record s { read_response = 3 }
      else ram_beat s read

  -- The data of the selected transaction's current beat.
  unfoldable pub supply_beat : AxiMemory → ℕ → AxiMemory
  unfolding region_beat device_beat ram_beat
  supply_beat s id =
      region_beat
        (record s {
          read_selected_id = id;
          read_data = replicate bus_words 0;
          read_data_valid = true;
          read_response = 0;
        })
        (read_of s id) s.platform

  -- `supply_beat` unless no read is active, a beat is waiting, or the first beat is delayed.
  unfoldable pub supply : AxiMemory → AxiMemory
  unfolding supply_beat
  supply s =
      let id = if s.demand.active then 0 else 1 in
      let (drawn, valid) = random_ready s in
      if not (s.demand.active || s.prefetch.active) || s.read_data_valid
      then s
      else if not ((read_of s id).beat == 0)
      then supply_beat s id
      else if valid
      then supply_beat drawn id
      else drawn

  unfoldable pub drive : AxiMemory → Ports → AxiMemory × Ports
  unfolding supply
  drive s cpu =
      let s₁ = supply s in
      let (s₂, ar_ready) = ready_if (ltb cpu.ar_id 2 && not (read_of s₁ cpu.ar_id).active) s₁ in
      let (s₃, aw_ready) = ready_if (not s₂.write_active && not s₂.write_response_valid) s₂ in
      let (s₄, drawn) = ready_if (s₃.write_active && s₃.write_beat == 0) s₃ in
      (
        s₄,
        record cpu {
          ar_ready = ar_ready;
          r_valid = s₁.read_data_valid;
          r_id = s₁.read_selected_id;
          r_data = s₁.read_data;
          r_resp = s₁.read_response;
          r_last =
              s₁.read_data_valid
              && (read_of s₁ s₁.read_selected_id).beat == (read_of s₁ s₁.read_selected_id).length;
          aw_ready = aw_ready;
          w_ready = s₃.write_active && (not (s₃.write_beat == 0) || drawn);
          b_valid = s₃.write_response_valid;
          b_id = s₃.write_id;
          b_resp = s₃.write_response;
        },
      )
