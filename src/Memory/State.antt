-- ===== src/Memory/State.antt =====
-- `SparseMemory::save` and `restore`, and that a checkpoint of the memory restores it.
use mathlib.Core.List.{append_assoc, append-nil}
use zircon_sim.Prelude.{
  ℕ, zero, suc, ◌/◌, ◌^◌, ◌<◌, ◌≤◌, ◌≡◌, ◌∙◌, refl, ap, List, [], ◌∷◌, ◌++◌, none, All, length,
  false, ◌==◌, arith,
}
use zircon_sim.Result.{ok}
use zircon_sim.Checkpoint.{Reader, ◌>>=◌, pure, write_u32, write_u64, read_u32, read_count}
use zircon_sim.Checkpoint.Laws.{read_le_then, read_count_then}
use zircon_sim.Platform.Defs.{ram_size}
use zircon_sim.Memory.{SparseMemory}
use zircon_sim.Memory.Table.{Words, find, upsert, find-upsert}

-- The pairs of the map, in its order.
unfoldable pub save_words : Words → List ℕ
save_words [] = []
save_words ((address, value) ∷ words) = write_u32 address ++ (write_u32 value ++ save_words words)

unfoldable pub save : SparseMemory → List ℕ
unfolding save_words
save m = write_u64 (length m.words) ++ save_words m.words

unfoldable pub restore_words : ℕ → Words → Reader Words
restore_words zero words = pure words
restore_words (suc left) words = do
  address ← read_u32
  value ← read_u32
  restore_words left (upsert address value words)

unfoldable pub restore : SparseMemory → Reader SparseMemory
unfolding restore_words
restore m = do
  count ← read_count (ram_size / 4) "memory word"
  words ← restore_words count []
  pure (record m { words = words })

-- No key stands in the table twice.
unfoldable pub IsDistinct : Words → Type 0
IsDistinct [] = Unit
IsDistinct ((k, v) ∷ l) = (find k l ≡ none) × IsDistinct l

-- `operator[]` keeps the keys of the map apart.
pub upsert-IsDistinct : (k v : ℕ) (l : Words) → IsDistinct l → IsDistinct (upsert k v l)
unfolding IsDistinct upsert find
upsert-IsDistinct k v [] h = (refl, tt)
upsert-IsDistinct k v ((j, w) ∷ l) h =
    ground (arith, h, find-upsert k j v l, upsert-IsDistinct k v l h.1)

find_middle : (j k v : ℕ) (front l : Words) → find j (front ++ (k, v) ∷ l) ≡ none → (j == k) ≡ false
unfolding find
find_middle j k v [] l e = ground (arith, e)
find_middle j k v ((i, w) ∷ front) l e = ground (arith, e, find_middle j k v front l)

find-append : (k v : ℕ) (front l : Words) → IsDistinct (front ++ (k, v) ∷ l) → find k front ≡ none
unfolding IsDistinct find
find-append k v [] l h = refl
find-append k v ((j, w) ∷ front) l h =
    ground (arith, find-append k v front l h.1, find_middle j k v front l, h.0)

upsert_fresh : (k v : ℕ) (l : Words) → find k l ≡ none → upsert k v l ≡ l ++ (k, v) ∷ []
unfolding upsert find
upsert_fresh k v [] e = refl
upsert_fresh k v ((j, w) ∷ l) e = ground (arith, e, upsert_fresh k v l)

-- What the types of the fields and the program's limit say.
pub record IsValid (m : SparseMemory) : Type 0 where
  pub distinct : IsDistinct m.words
  pub keys : All (λ e. e.0 < 256 ^ 4) m.words
  pub values : All (λ e. e.1 < 256 ^ 4) m.words
  pub size : length m.words ≤ ram_size / 4

restore_words-save_words :
    (front words : Words) (rest : List ℕ)
    → IsDistinct (front ++ words)
    → All (λ e. e.0 < 256 ^ 4) words
    → All (λ e. e.1 < 256 ^ 4) words
    → restore_words (length words) front (save_words words ++ rest) ≡ ok (front ++ words, rest)
unfolding restore_words save_words
restore_words-save_words front [] rest d ks vs = rw (append-nil front) refl
restore_words-save_words front ((k, v) ∷ words) rest d ks vs =
    rw
      (
        read_le_then _ rest 4 k ks.0,
        read_le_then _ rest 4 v vs.0,
        ◌>>=◌,
        upsert_fresh k v front (find-append k v front words d),
      )
      (restore_words-save_words (front ++ (k, v) ∷ []) words rest
          (rw (append_assoc front ((k, v) ∷ []) words) d) ks.1 vs.1
        ∙ ap (λ l. ok (l, rest)) (append_assoc front ((k, v) ∷ []) words))

-- Restoring what was saved gives the saved words, if no address is stored twice, addresses and words fit 32
-- bits and there are no more words than the RAM has; `save` writes more, `restore` throws.
pub restore-save_words :
    (m q : SparseMemory) (rest : List ℕ) → IsValid m → restore q (save m ++ rest) ≡ ok (m, rest)
unfolding restore save
restore-save_words m q rest v = rw (
  read_count_then _ rest (ram_size / 4) (length m.words) "memory word" (omega (arith, v.size))
      v.size,
  restore_words-save_words [] m.words rest v.distinct v.keys v.values,
  ◌>>=◌,
)
