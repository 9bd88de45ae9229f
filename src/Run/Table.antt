-- ===== src/Run/Table.antt =====
-- `unordered_map` and `map` as association lists: `table[key]` makes the default entry_of of a key that
-- is missing.
use zircon_sim.Prelude.{ℕ, ◌≡◌, List, [], ◌∷◌, arith, ◌==◌, if◌then◌else◌}

module _ {V : Type 0} where
  unfoldable pub entry_of : V → ℕ → List (ℕ × V) → V
  entry_of default key [] = default
  entry_of default key ((k, v) ∷ table) = if k == key then v else entry_of default key table

  -- `change(table[key])`
  unfoldable pub update_entry : V → ℕ → (V → V) → List (ℕ × V) → List (ℕ × V)
  update_entry default key change [] = (key, change default) ∷ []
  update_entry default key change ((k, v) ∷ table) =
      if k == key then (k, change v) ∷ table else (k, v) ∷ update_entry default key change table

  pub entry_of-update_entry :
      (default : V) (key other : ℕ) (change : V → V) (table : List (ℕ × V))
      → entry_of default other (update_entry default key change table) ≡ (
          if key == other
          then change (entry_of default key table)
          else entry_of default other table)
  unfolding entry_of update_entry
  entry_of-update_entry default key other change [] = ground arith
  entry_of-update_entry default key other change ((k, v) ∷ table) =
      ground (arith, entry_of-update_entry default key other change table)
