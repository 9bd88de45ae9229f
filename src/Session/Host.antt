-- ===== src/Session/Host.antt =====
-- The host file of a checkpoint (src/main.cc): its head, which is what a run must have in
-- common with the one that saved it, then what the run holds. `ZIRCON_CORE_PROFILE`
-- and the other words of the build's identity come from the build and are its bytes; the fingerprints of
-- the image and of the RTL file are arguments, as they are in the source.
use zircon_sim.Prelude.{
  ℕ, Option, none, some, Bool, true, false, not, ◌&&◌, List, [], ◌∷◌, ◌++◌, ◌==◌, if◌then◌else◌,
}
use zircon_sim.Result.{Error, runtime_error}
use zircon_sim.Checkpoint.{
  ◌>>=◌, ◌>>◌, Reader, pure, throw_if, write_u8, write_u32, write_u64, write_bool, write_string,
  read_u8, read_u32, read_u64, read_bool, read_string, require_end,
}
use zircon_sim.Statistic.Snapshot.{Statistic}
use zircon_sim.Statistic.Snapshot
use zircon_sim.Memory
use zircon_sim.Axi
use zircon_sim.Axi.Defs.{AxiMemory}
use zircon_sim.Axi.State.{differs}
use zircon_sim.Platform
use zircon_sim.Session.Codec.{write_option}
use zircon_sim.Options.{PlatformMode, baremetal, linux}
use zircon_sim.Run.{SimulationState}
use zircon_sim.Session.State.{save_state, restore_state}

pub record Header : Type 0 where
  pub build_identity : List ℕ
  pub image_fingerprint : ℕ
  pub rtl_fingerprint : ℕ
  pub platform : PlatformMode
  pub difftest : Bool
  pub seed : ℕ

abbrev pub checkpoint_magic : ℕ
checkpoint_magic = 0x5a4952434f4e4350

abbrev pub checkpoint_version : ℕ
checkpoint_version = 5

abbrev pub platform_value : PlatformMode → ℕ
platform_value baremetal = 0
platform_value linux = 1

abbrev pub same_bytes : List ℕ → List ℕ → Bool
same_bytes [] [] = true
same_bytes [] (y ∷ ys) = false
same_bytes (x ∷ xs) [] = false
same_bytes (x ∷ xs) (y ∷ ys) = (x == y) && same_bytes xs ys

unfoldable pub save_header : Header → List ℕ
save_header h =
    write_u64 checkpoint_magic
    ++ (write_u32 checkpoint_version
        ++ (write_string h.build_identity
            ++ (write_u64 h.image_fingerprint
                ++ (write_u64 h.rtl_fingerprint
                    ++ (write_u8 (platform_value h.platform)
                        ++ (write_bool h.difftest ++ write_u64 h.seed))))))

-- The head is checked against this run, which has the RTL file beside it.
unfoldable pub restore_header : Header → Reader (Unit {0})
restore_header h = do
  magic ← read_u64
  throw_if (not (magic == checkpoint_magic))
      (runtime_error "checkpoint host state has an invalid magic value")
  version ← read_u32
  throw_if (not (version == checkpoint_version))
      (runtime_error "checkpoint host state uses an unsupported version")
  identity ← read_string 4096
  throw_if (not (same_bytes identity h.build_identity))
      (runtime_error "checkpoint core configuration or compiler does not match this build")
  image ← read_u64
  throw_if (not (image == h.image_fingerprint))
      (runtime_error "checkpoint was created for a different ELF image")
  rtl ← read_u64
  throw_if (not (h.rtl_fingerprint == rtl))
      (runtime_error "checkpoint RTL and host state files do not form a matching pair")
  platform ← read_u8
  throw_if (not (platform == platform_value h.platform))
      (runtime_error "checkpoint platform does not match --platform")
  difftest ← read_bool
  throw_if (if h.difftest then not difftest else difftest)
      (runtime_error "checkpoint differential-testing mode does not match this run")
  seed ← read_u64
  throw_if (not (seed == h.seed)) (runtime_error "checkpoint simulation seed does not match --seed")

-- What a run saves beside the RTL: the loop's state, the statistics, the bus model with the image's
-- memory and the devices that it refers to, and the reference if it is compared with one.
pub record Session (R : Type 0) : Type 0 where
  pub state : SimulationState
  pub statistic : Statistic
  pub bus : AxiMemory
  pub reference : Option R

-- `SpikeReference::save` and `restore`.
pub record Saved (R : Type 0) : Type 0 where
  pub save : R → List ℕ
  pub restore : R → Reader R

module _ {A : Type 0} where
  abbrev pub has_value : Option A → Bool
  has_value none = false
  has_value (some a) = true

  abbrev pub restore_held : (A → Reader A) → Option A → Reader (Option A)
  restore_held restore none = pure none
  restore_held restore (some a) = do b ← restore a; pure (some b)

  -- An optional part is there exactly if this run has it.
  unfoldable pub restore_part : (A → Reader A) → Error → Option A → Reader (Option A)
  restore_part restore e current = do
    present ← read_bool
    throw_if (differs present (has_value current)) e
    restore_held restore current

-- `gap` and `tail` are the bytes between the members of the saved structures.
module _ {R : Type 0} (saved : Saved R) where
  unfoldable pub save_parts : Session R → List ℕ
  unfolding Snapshot.save Memory.State.save Axi.State.save write_option
  save_parts s =
      Snapshot.save s.statistic
      ++ (Memory.State.save s.bus.memory
          ++ (Axi.State.save s.bus
              ++ (write_option Platform.State.save s.bus.platform
                  ++ write_option saved.save s.reference)))

  unfoldable pub save_session : List ℕ → List ℕ → Header → Session R → List ℕ
  unfolding save_header save_state save_parts
  save_session gap tail h s = save_header h ++ (save_state gap tail s.state ++ save_parts s)

  unfoldable pub restore_parts : ℕ → Session R → Reader (Session R)
  unfolding Snapshot.restore Memory.State.restore Axi.State.restore restore_part
  restore_parts bus_words s = do
    statistic ← Snapshot.restore
    memory ← Memory.State.restore s.bus.memory
    bus ← Axi.State.restore bus_words (record (s.bus) { memory = memory })
    platform ←
        restore_part Platform.State.restore
          (runtime_error "checkpoint device platform does not match --platform") bus.platform
    reference ←
        restore_part saved.restore
          (runtime_error "checkpoint Spike state does not match differential-testing mode")
          s.reference
    pure (record s {
      statistic = statistic;
      bus = record bus { platform = platform };
      reference = reference;
    })

  unfoldable pub restore_session : ℕ → Header → Session R → Reader (Session R)
  unfolding restore_header restore_state restore_parts
  restore_session bus_words h s = do
    restore_header h
    state ← restore_state s.state
    restored ← restore_parts bus_words (record s { state = state })
    require_end
    pure restored
