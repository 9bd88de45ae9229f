-- ===== src/Memory/Table.antt =====
-- The table of words: an association list with its lookup law.
use zircon_sim.Prelude.{
  ℕ, ◌<◌, ◌^◌, List, [], ◌∷◌, Option, none, some, ◌≡◌, refl, arith, All, ◌==◌, if◌then◌else◌,
}

abbrev pub Words : Type 0
Words = List (ℕ × ℕ)

unfoldable pub find : ℕ → Words → Option ℕ
find k [] = none
find k ((j, v) ∷ l) = if j == k then some v else find k l

-- `words_[k] = v`
unfoldable pub upsert : ℕ → ℕ → Words → Words
upsert k v [] = (k, v) ∷ []
upsert k v ((j, w) ∷ l) = if j == k then (k, v) ∷ l else (j, w) ∷ upsert k v l

pub find-upsert :
    (k j v : ℕ) (l : Words) → find j (upsert k v l) ≡ (if k == j then some v else find j l)
unfolding find upsert
find-upsert k j v [] = refl
find-upsert k j v ((i, w) ∷ l) = ground (arith, find-upsert k j v l)

-- Every stored word is a `uint32_t`.
abbrev pub IsWords : Words → Type 0
IsWords l = All (λ e. e.1 < 2 ^ 32) l

pub upsert-IsWords : (k v : ℕ) (l : Words) → v < 2 ^ 32 → IsWords l → IsWords (upsert k v l)
unfolding upsert
upsert-IsWords k v [] hv h = (hv, tt)
upsert-IsWords k v ((j, w) ∷ l) hv h = ground (arith, upsert-IsWords k v l hv h.1)

pub find-lt : (k v : ℕ) (l : Words) → IsWords l → find k l ≡ some v → v < 2 ^ 32
unfolding find
find-lt k v [] h e = cc
find-lt k v ((j, w) ∷ l) h e = ground (arith, find-lt k v l h.1)
