-- ===== src/Session/Restore.antt =====
-- A checkpoint is read back by a run that matches it.
use mathlib.Core.List.{append-nil}
use zircon_sim.Prelude.{
  ℕ, ◌≡◌, refl, sym, ap, Option, none, some, ◌∙◌, true, false, List, [], ◌++◌, arith, length,
}
use zircon_sim.Result.{Error, ok}
use zircon_sim.Checkpoint.{require_end, ◌>>=◌, ◌>>◌, Reader, throw_if}
use zircon_sim.Checkpoint.Laws.{read_bool-write_bool}
use zircon_sim.Statistic.Snapshot.{Statistic}
use zircon_sim.Statistic.Snapshot
use zircon_sim.Statistic.Restore.{IsStatistic, restore-save_statistic}
use zircon_sim.Session.Codec.{write_option, Reads, then-Reads, last-Reads, bool-Reads}
use zircon_sim.Session.State.{save_state}
use zircon_sim.Session.Valid.{IsState}
use zircon_sim.Session.StateLaws.{state-Reads}
use zircon_sim.Memory
use zircon_sim.Memory.{SparseMemory}
use zircon_sim.Memory.State.{restore-save_words}
use zircon_sim.ExitMonitor.{set_value}
use zircon_sim.Axi
use zircon_sim.Axi.Defs.{AxiMemory}
use zircon_sim.Axi.State.{differs, has_exit, exit_value}
use zircon_sim.Axi.Restore.{restore-save_bus}
use zircon_sim.Platform
use zircon_sim.Platform.Defs.{PlatformDevices}
use zircon_sim.Session.Host.{
  restore_session, save_session, Session, Saved, has_value, restore_held, restore_part, save_parts,
  restore_parts, Header, save_session, restore_session,
}
use zircon_sim.Session.Head.{IsHeader, check-Reads, header-Reads}

statistic-Reads : (s : Statistic) → IsStatistic s → Reads Snapshot.restore (Snapshot.save s) s
statistic-Reads s h = record { back = λ rest. restore-save_statistic s rest h }

memory-Reads :
    (m q : SparseMemory)
    → Memory.State.IsValid m
    → Reads (Memory.State.restore q) (Memory.State.save m) m
memory-Reads m q h = record { back = λ rest. restore-save_words m q rest h }

-- The devices restored into keep their output switch and their console.
abbrev pub resumed_devices : PlatformDevices → PlatformDevices → PlatformDevices
resumed_devices p q = record p { emit_uart = q.emit_uart; console = q.console }

devices-Reads :
    (p q : PlatformDevices)
    → Platform.Restore.IsValid p
    → Reads (Platform.State.restore q) (Platform.State.save p) (resumed_devices p q)
devices-Reads p q h = record { back = λ rest. Platform.Restore.restore-save p q rest h }

whole :
    {A : Type 0} {read : Reader A} {bytes : List ℕ} {a : A}
    → Reads read bytes a
    → read bytes ≡ ok (a, [])
whole {read = read} {bytes = bytes} h = ap read (sym (append-nil bytes)) ∙ h.back []

module _ {A : Type 0} where
  abbrev pub resumed_part : (A → A → A) → Option A → Option A → Option A
  resumed_part resume (some p) (some q) = some (resume p q)
  resumed_part resume (some p) none = none
  resumed_part resume none q = none

  part-Reads :
      (restore : A → Reader A) (write : A → List ℕ) (resume : A → A → A) (e : Error)
      (o q : Option A)
      → has_value q ≡ has_value o
      → ((p r : A) → o ≡ some p → Reads (restore r) (write p) (resume p r))
      → Reads (restore_part restore e q) (write_option write o) (resumed_part resume o q)
  unfolding restore_part write_option
  part-Reads restore write resume e none none same h = record {
    back = λ rest. rw (read_bool-write_bool false rest, ◌>>=◌) refl;
  }
  part-Reads restore write resume e none (some r) same h = ground (arith, same)
  part-Reads restore write resume e (some p) none same h = ground (arith, same)
  part-Reads restore write resume e (some p) (some r) same h =
      then-Reads (λ present. throw_if (differs present true) e >> restore_held restore (some r))
        (bool-Reads true) (check-Reads e refl (last-Reads (λ a. some a) (h p r refl)))

module _ (bus_words : ℕ) where
  -- The bus model restored into keeps its console, the address of `tohost` and the output of its devices.
  abbrev pub resumed_bus : AxiMemory → AxiMemory → AxiMemory
  resumed_bus s q = record s {
    console = q.console;
    exit = elim q.exit [ none ↦ none | some monitor ↦ some (set_value monitor (exit_value s)) ];
    platform = resumed_part resumed_devices s.platform q.platform;
  }

  bus-Reads :
      (s q : AxiMemory)
      → Axi.Restore.IsValid bus_words s
      → has_exit q ≡ has_exit s
      → Reads (Axi.State.restore bus_words q) (Axi.State.save s) (record s {
        memory = q.memory;
        platform = q.platform;
        console = q.console;
        exit = elim q.exit [ none ↦ none | some monitor ↦ some (set_value monitor (exit_value s)) ];
      })
  bus-Reads s q h same = record { back = λ rest. restore-save_bus bus_words s q rest h same }

-- What is required of a run that is saved: that its fields fit their types and the limits of what a
-- restore takes, and that it is not compared with a reference.
pub record IsSession {R : Type 0} (bus_words : ℕ) (s : Session R) : Type 0 where
  pub state : IsState s.state
  pub statistic : IsStatistic s.statistic
  pub memory : Memory.State.IsValid s.bus.memory
  pub bus : Axi.Restore.IsValid bus_words s.bus
  pub platform : (p : PlatformDevices) → s.bus.platform ≡ some p → Platform.Restore.IsValid p
  pub reference : s.reference ≡ none

-- Two runs have the same parts: `tohost`, the devices and the reference.
pub record AreAlike {R : Type 0} (s q : Session R) : Type 0 where
  pub exit : has_exit q.bus ≡ has_exit s.bus
  pub platform : has_value q.bus.platform ≡ has_value s.bus.platform
  pub reference : has_value q.reference ≡ has_value s.reference

module _ {R : Type 0} (saved : Saved R) (bus_words : ℕ) where
  abbrev pub resumed : Session R → Session R → Session R
  resumed s q = record s { bus = resumed_bus bus_words s.bus q.bus }

  none≢some : {r : R} → ¬ (none ≡ some r)
  none≢some = cc

  same_part : (o q : Option R) → has_value q ≡ has_value o → resumed_part (λ a b. a) o q ≡ o
  same_part none q h = refl
  same_part (some r) none h = ground (arith, h)
  same_part (some r) (some p) h = refl

  parts-Reads :
      (s q : Session R)
      → IsSession bus_words s
      → AreAlike s q
      → Reads
          (restore_parts saved bus_words (record q { state = s.state }))
          (save_parts saved s)
          (record (resumed s q) { reference = resumed_part (λ a b. a) s.reference q.reference })
  unfolding restore_parts save_parts
  parts-Reads s q h alike = then-Reads _ (statistic-Reads s.statistic h.statistic) (
      then-Reads _ (memory-Reads s.bus.memory q.bus.memory h.memory) (
        then-Reads _
          (bus-Reads bus_words s.bus (record (q.bus) { memory = s.bus.memory }) h.bus alike.exit)
          (then-Reads _
            (part-Reads Platform.State.restore Platform.State.save resumed_devices _ s.bus.platform
              q.bus.platform alike.platform (λ p r e. devices-Reads p r (h.platform p e)))
            (last-Reads _ (
              part-Reads saved.restore saved.save (λ a b. a) _ s.reference q.reference
                alike.reference (λ p r e. absurd (none≢some (sym h.reference ∙ e))))))))

  -- For a run that is not compared with a reference, whose fields fit their types and the limits of a
  -- restore (of words in the memory, of characters in the devices' input and output, of branches): a run that
  -- has the build, image, RTL file, platform, mode and seed and the parts of the one that saved a
  -- checkpoint takes the whole host file. It is left with the loop's state, the statistics, the memory,
  -- the bus and the devices as they were saved, and with its own console, output switch and address of
  -- `tohost`.
  pub restore_session-save_session :
      (gap tail : List ℕ) (h : Header) (s q : Session R)
      → length gap ≡ 4
      → length tail ≡ 3
      → IsHeader h
      → IsSession bus_words s
      → AreAlike s q
      → restore_session saved bus_words h q (save_session saved gap tail h s) ≡ ok (resumed s q, [])
  unfolding restore_session save_session require_end
  restore_session-save_session gap tail h s q hg ht fits hs alike =
      rw
        (
          (header-Reads h fits).back (save_state gap tail s.state ++ save_parts saved s),
          ◌>>=◌,
          (state-Reads gap tail hg ht s.state q.state hs.state).back (save_parts saved s),
          ◌>>=◌,
          whole (parts-Reads s q hs alike),
          ◌>>=◌,
          same_part s.reference q.reference alike.reference,
        )
        refl
