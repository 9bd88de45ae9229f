-- ===== src/Axi/Handshakes.antt =====
-- The handshakes of `AXIMemory::update`, each on the invariant, and the whole cycle.
use zircon_sim.Prelude.{ℕ, ◌<◌, ◌≡◌, true, false, Option, none, some, arith, ◌∙◌}
use zircon_sim.Axi.Defs.{Ports, ReadTransaction, AxiMemory}
use zircon_sim.Axi.Drive.{drive}
use zircon_sim.Axi.Update.{
  accept_ar, next_beat, accept_r, accept_aw, accept_w, accept_b, end_cycle, update,
}
use zircon_sim.Axi.Protocol.{IsRead, IsConsistent, accept_w-AfterBeat}
use zircon_sim.Axi.Cycle.{Offered, Evaluates, drive_lem, drive-IsConsistent}

module _ (n : ℕ) where
  accept_ar-IsConsistent :
      (s : AxiMemory) (cpu : Ports)
      → Offered s cpu
      → IsConsistent s
      → IsConsistent (accept_ar s cpu)
  unfolding accept_ar
  accept_ar-IsConsistent s cpu o c = ground (arith, o, c)

  next_beat-IsRead : (r : ReadTransaction) → IsRead r → IsRead (next_beat r)
  unfolding next_beat
  next_beat-IsRead r h = ground (arith, h)

  accept_r-IsConsistent :
      (s : AxiMemory) (cpu : Ports) → IsConsistent s → IsConsistent (accept_r s cpu)
  unfolding accept_r
  accept_r-IsConsistent s cpu c =
      ground (arith, c, next_beat-IsRead s.demand c.demand, next_beat-IsRead s.prefetch c.prefetch)

  accept_aw-IsConsistent :
      (s : AxiMemory) (cpu : Ports)
      → (cpu.aw_ready ≡ true → (s.write_active ≡ false) × (s.write_response_valid ≡ false))
      → cpu.aw_len < 256
      → IsConsistent s
      → IsConsistent (accept_aw s cpu)
  unfolding accept_aw
  accept_aw-IsConsistent s cpu aw len c = ground (arith, aw, c)

  accept_w-IsConsistent :
      (s : AxiMemory) (cpu : Ports)
      → (cpu.w_ready ≡ true → s.write_active ≡ true)
      → IsConsistent s
      → IsConsistent (accept_w n s cpu).0
  accept_w-IsConsistent s cpu w c = ground (arith, w, c, accept_w-AfterBeat n s cpu)

  accept_b-IsConsistent :
      (s : AxiMemory) (cpu : Ports) → IsConsistent s → IsConsistent (accept_b n s cpu)
  unfolding accept_b
  accept_b-IsConsistent s cpu c = ground (arith, c)

  end_cycle-IsConsistent :
      (s : AxiMemory) (cpu : Ports) (result : Option ℕ)
      → IsConsistent s
      → IsConsistent (end_cycle n s cpu result).0
  unfolding end_cycle
  end_cycle-IsConsistent s cpu none c = accept_b-IsConsistent s cpu c
  end_cycle-IsConsistent s cpu (some code) c = c

  -- Each handshake keeps what the later ones rely on.
  record SameWrite (s t : AxiMemory) : Type 0 where
    write_active : t.write_active ≡ s.write_active
    write_response_valid : t.write_response_valid ≡ s.write_response_valid

  reads-SameWrite : (s : AxiMemory) (cpu : Ports) → SameWrite s (accept_r (accept_ar s cpu) cpu)
  unfolding accept_r accept_ar
  reads-SameWrite s cpu = ground arith

  accept_aw_active :
      (s : AxiMemory) (cpu : Ports) → s.write_active ≡ true → (accept_aw s cpu).write_active ≡ true
  unfolding accept_aw
  accept_aw_active s cpu e = ground arith

  -- `update` keeps the invariant on what `drive` offered.
  update-IsConsistent :
      (s : AxiMemory) (cpu : Ports)
      → Offered s cpu
      → IsConsistent s
      → IsConsistent (update n s cpu).0
  unfolding update
  update-IsConsistent s cpu o c =
      let s₂ = accept_r (accept_ar s cpu) cpu in
      let c₂ = accept_r-IsConsistent (accept_ar s cpu) cpu (accept_ar-IsConsistent s cpu o c) in
      let same = reads-SameWrite s cpu in
      let c₃ = accept_aw-IsConsistent s₂ cpu (ground (arith, o, same)) o.aw_len c₂ in
      let c₄ =
        accept_w-IsConsistent (accept_aw s₂ cpu) cpu
          (λ ready. accept_aw_active s₂ cpu (same.write_active ∙ o.w ready)) c₃ in
      let step = accept_w n (accept_aw s₂ cpu) cpu in end_cycle-IsConsistent step.0 cpu step.1 c₄

  -- One cycle of the emulator.
  pub cycle-IsConsistent :
      (s : AxiMemory) (before after : Ports)
      → Evaluates (drive n s before).1 after
      → IsConsistent s
      → IsConsistent (update n (drive n s before).0 after).0
  cycle-IsConsistent s before after v c =
      update-IsConsistent (drive n s before).0 after (drive_lem n s before after v)
        (drive-IsConsistent n s before c)

  -- The states of a run: each cycle is `drive`, an evaluation of the core, and `update`.
  pub data Reaches (s : AxiMemory) : AxiMemory → Type 0 where
    start : Reaches s s
    cycle :
        {t : AxiMemory} (before after : Ports)
        → Reaches s t
        → Evaluates (drive n t before).1 after
        → Reaches s (update n (drive n t before).0 after).0

  -- In every state of a run from a consistent one: the beat counters lie within their bursts, a beat
  -- that waits belongs to an active read, and the write channel never collects data while it owes a
  -- response.
  pub Reaches-IsConsistent : (s t : AxiMemory) → IsConsistent s → Reaches s t → IsConsistent t
  Reaches-IsConsistent s _ c start = c
  Reaches-IsConsistent s _ c (cycle {t} before after run v) =
      cycle-IsConsistent t before after v (Reaches-IsConsistent s t c run)
