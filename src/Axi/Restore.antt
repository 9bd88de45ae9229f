-- ===== src/Axi/Restore.antt =====
-- A checkpoint of the bus model restores it.
use mathlib.Core.List.{append_assoc}
use zircon_sim.Prelude.{
  ℕ, ◌^◌, ◌<◌, ◌≡◌, ◌≢◌, refl, false, true, List, [], ◌∷◌, ◌++◌, none, some, All, length, arith,
  Bool, sym,
}
use zircon_sim.Result.{ok}
use zircon_sim.Checkpoint.{◌>>=◌}
use zircon_sim.Checkpoint.Laws.{read_le_then, read_bool_then, read_le-write_le}
use zircon_sim.ExitMonitor.{set_value}
use zircon_sim.Rng.{DeterministicRng, set_state}
use zircon_sim.Axi.Defs.{ReadTransaction, AxiMemory}
use zircon_sim.Axi.State.{
  has_exit, exit_value, differs, write_words, read_words, save_read, restore_read, lift, save,
  restore,
}

-- What the types of a transaction's fields say.
pub record IsReadState (r : ReadTransaction) : Type 0 where
  pub address : r.address < 256 ^ 8
  pub size : r.size < 256 ^ 8
  pub length : r.length < 256
  pub beat : r.beat < 256

-- What the types of the fields say, with a generator that is not stuck at zero.
pub record IsValid (bus_words : ℕ) (s : AxiMemory) : Type 0 where
  pub exit : exit_value s < 256 ^ 4
  pub rng : s.rng.state < 256 ^ 8
  pub live : s.rng.state ≢ 0
  pub words : length s.read_data ≡ bus_words
  pub read_data : All (λ w. w < 256 ^ 4) s.read_data
  pub read_selected_id : s.read_selected_id < 256
  pub read_response : s.read_response < 256
  pub demand : IsReadState s.demand
  pub prefetch : IsReadState s.prefetch
  pub write_address : s.write_address < 256 ^ 8
  pub write_size : s.write_size < 256 ^ 8
  pub write_length : s.write_length < 256
  pub write_beat : s.write_beat < 256
  pub write_id : s.write_id < 256
  pub write_response : s.write_response < 256

read_words-write_words :
    (words rest : List ℕ)
    → All (λ w. w < 256 ^ 4) words
    → read_words (length words) (write_words words ++ rest) ≡ ok (words, rest)
unfolding read_words write_words
read_words-write_words [] rest h = refl
read_words-write_words (w ∷ words) rest h =
    rw (read_le_then (write_words words) rest 4 w h.0, read_words-write_words words rest h.1, ◌>>=◌)

read_words_then :
    (words tail rest : List ℕ)
    → All (λ w. w < 256 ^ 4) words
    → read_words (length words) ((write_words words ++ tail) ++ rest) ≡ ok (words, tail ++ rest)
read_words_then words tail rest h =
    rw (append_assoc (write_words words) tail rest) (read_words-write_words words (tail ++ rest) h)

read_words_sized :
    (bus_words : ℕ) (words tail rest : List ℕ)
    → length words ≡ bus_words
    → All (λ w. w < 256 ^ 4) words
    → read_words bus_words ((write_words words ++ tail) ++ rest) ≡ ok (words, tail ++ rest)
read_words_sized n words tail rest e h = rw (sym e) (read_words_then words tail rest h)

differs_self : (b : Bool) → differs b b ≡ false
differs_self true = refl
differs_self false = refl

restore_read-save_read :
    (r : ReadTransaction) (rest : List ℕ)
    → IsReadState r
    → restore_read (save_read r ++ rest) ≡ ok (r, rest)
unfolding restore_read save_read
restore_read-save_read r rest v = rw (
  read_bool_then _ rest r.active,
  read_le_then _ rest 8 r.address v.address,
  read_le_then _ rest 8 r.size v.size,
  read_le_then _ rest 1 r.length v.length,
  read_le-write_le 1 r.beat rest v.beat,
  ◌>>=◌,
)

restore_read_then :
    (r : ReadTransaction) (tail rest : List ℕ)
    → IsReadState r
    → restore_read ((save_read r ++ tail) ++ rest) ≡ ok (r, tail ++ rest)
restore_read_then r tail rest v =
    rw (append_assoc (save_read r) tail rest) (restore_read-save_read r (tail ++ rest) v)

set_state_then :
    (rng : DeterministicRng) (state : ℕ) (bytes : List ℕ)
    → state ≢ 0
    → lift (set_state rng state) bytes ≡ ok (record { state = state }, bytes)
unfolding lift set_state
set_state_then rng state bytes live = ground (arith, live)

module _ (bus_words : ℕ) (s q : AxiMemory) (rest : List ℕ) (v : IsValid bus_words s) where
  -- Restoring what was saved gives the saved transactions, generator and exit value. The memory,
  -- the devices and the address of `tohost` are those of the model restored into, which watches
  -- `tohost` if the saved one did; whatever follows in the file is left.
  pub restore-save_bus :
      has_exit q ≡ has_exit s
      → restore bus_words q (save s ++ rest)
        ≡ ok (
          record s {
            memory = q.memory;
            platform = q.platform;
            console = q.console;
            exit = elim q.exit [
              | none ↦ none
              | some monitor ↦ some (set_value monitor (exit_value s))
            ];
          },
          rest,
        )
  unfolding restore save
  restore-save_bus same = rw (
    read_bool_then _ rest (has_exit s),
    read_le_then _ rest 4 (exit_value s) v.exit,
    agree,
    read_le_then _ rest 8 s.rng.state v.rng,
    set_state_then q.rng s.rng.state _ v.live,
    read_bool_then _ rest s.read_data_valid,
    read_words_sized bus_words s.read_data _ rest v.words v.read_data,
    read_le_then _ rest 1 s.read_selected_id v.read_selected_id,
    read_le_then _ rest 1 s.read_response v.read_response,
    restore_read_then s.demand _ rest v.demand,
    restore_read_then s.prefetch _ rest v.prefetch,
    read_bool_then _ rest s.write_active,
    read_bool_then _ rest s.write_response_valid,
    read_le_then _ rest 8 s.write_address v.write_address,
    read_le_then _ rest 8 s.write_size v.write_size,
    read_le_then _ rest 1 s.write_length v.write_length,
    read_le_then _ rest 1 s.write_beat v.write_beat,
    read_le_then _ rest 1 s.write_id v.write_id,
    read_le-write_le 1 s.write_response rest v.write_response,
    ◌>>=◌,
  )
    where
      agree : differs (has_exit s) (has_exit q) ≡ false
      agree = rw same (differs_self (has_exit s))
