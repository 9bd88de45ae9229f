-- ===== src/Axi/Bursts.antt =====
-- The beats of a read burst.
use zircon_sim.Prelude.{
  ℕ, zero, suc, ◌+◌, ◌*◌, ◌^◌, ◌<◌, ◌≤◌, ◌≡◌, ◌∙◌, ap, true, false, ◌==◌, arith,
}
use zircon_sim.Word.{u8, u64}
use zircon_sim.Axi.Defs.{ReadTransaction}
use zircon_sim.Axi.Update.{next_beat}

-- The transaction after `k` of its beats were taken.
abbrev pub beats : ℕ → ReadTransaction → ReadTransaction
beats zero r = r
beats (suc k) r = next_beat (beats k r)

moved :
    (r : ReadTransaction) (beat address : ℕ)
    → r.beat ≡ beat
    → r.address ≡ address
    → r ≡ record r { beat = beat; address = address }
moved r beat address b a =
    ap (λ t. record r { beat = t }) b ∙ ap (λ t. record r { beat = beat; address = t }) a

beats_so_far :
    (k : ℕ) (r : ReadTransaction)
    → r.beat ≡ 0
    → r.length < 256
    → r.address < 2 ^ 64
    → k ≤ r.length
    → beats k r ≡ record r { beat = k; address = u64 (r.address + k * r.size) }
unfolding next_beat
beats_so_far zero r start bounded wide h =
    moved r 0 (u64 (r.address + 0 * r.size)) start (omega arith)
beats_so_far (suc k) r start bounded wide h =
    ap next_beat (beats_so_far k r start bounded wide (omega arith))
    ∙ rw not_last (
        ap (λ t. record r { beat = u8 (k + 1); address = t }) next
        ∙ ap (λ t. record r { beat = t; address = u64 (r.address + suc k * r.size) }) counted)
  where
    not_last : (k == r.length) ≡ false
    not_last = ground arith

    next : u64 (u64 (r.address + k * r.size) + r.size) ≡ u64 (r.address + suc k * r.size)
    next = omega arith

    counted : u8 (k + 1) ≡ suc k
    counted = omega arith

-- A burst of length `l` has `l + 1` beats: before its last beat is taken it is active, counts the beats
-- taken, and addresses the next one, modulo 2 ^ 64; after it the transaction is idle.
pub beats_lem :
    (k : ℕ) (r : ReadTransaction)
    → r.active ≡ true
    → r.beat ≡ 0
    → r.length < 256
    → r.address < 2 ^ 64
    → k ≤ r.length
    → (beats k r ≡ record r { beat = k; address = u64 (r.address + k * r.size) })
      × ((beats k r).active ≡ true)
      × ((beats (suc r.length) r).active ≡ false)
unfolding next_beat
beats_lem k r active start bounded wide h = (
  beats_so_far k r start bounded wide h,
  ap (λ t. t.active) (beats_so_far k r start bounded wide h) ∙ active,
  ended,
)
  where
    ended : (beats (suc r.length) r).active ≡ false
    ended =
        ap (λ t. (next_beat t).active) (beats_so_far r.length r start bounded wide (omega arith))
        ∙ ground arith
