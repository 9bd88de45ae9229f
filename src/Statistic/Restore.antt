-- ===== src/Statistic/Restore.antt =====
-- The checkpoint of the statistics read back.
use mathlib.Core.List.{append_assoc}
use zircon_sim.Prelude.{ℕ, ◌^◌, ◌<◌, ◌≡◌, refl, sym, ap, ◌∙◌, List, [], ◌∷◌, ◌++◌, All, length, map}
use zircon_sim.Result.{ok}
use zircon_sim.Checkpoint.{◌>>=◌, write_u64}
use zircon_sim.Checkpoint.Laws.{read_le-write_le}
use zircon_sim.Statistic.{InstructionStatistic}
use zircon_sim.Statistic.Snapshot.{
  PerformanceSnapshot, Statistic, instruction_words, performance_groups, flatten, write_all, save,
  group_sizes, read_words, read_groups, instruction_of, performance_of, restore,
}

abbrev pub AreWords : List ℕ → Type 0
AreWords words = All (λ w. w < 2 ^ 64) words

write_all-append : (xs ys : List ℕ) → write_all (xs ++ ys) ≡ write_all xs ++ write_all ys
unfolding write_all
write_all-append [] ys = refl
write_all-append (x ∷ xs) ys =
    rw (write_all-append xs ys) (sym (append_assoc (write_u64 x) (write_all xs) (write_all ys)))

read_words-write_all :
    (words rest : List ℕ)
    → AreWords words
    → read_words (length words) (write_all words ++ rest) ≡ ok (words, rest)
unfolding read_words write_all
read_words-write_all [] rest h = refl
read_words-write_all (w ∷ words) rest (hw, h) =
    rw
      (
        append_assoc (write_u64 w) (write_all words) rest,
        read_le-write_le 8 w (write_all words ++ rest) hw,
        ◌>>=◌,
        read_words-write_all words rest h,
      )
      refl

read_groups-write_all :
    (groups : List (List ℕ)) (rest : List ℕ)
    → All AreWords groups
    → read_groups (map length groups) (write_all (flatten groups) ++ rest) ≡ ok (groups, rest)
unfolding read_groups flatten write_all
read_groups-write_all [] rest h = refl
read_groups-write_all (words ∷ groups) rest (hw, h) =
    rw
      (
        write_all-append words (flatten groups),
        append_assoc (write_all words) (write_all (flatten groups)) rest,
        read_words-write_all words (write_all (flatten groups) ++ rest) hw,
        ◌>>=◌,
        read_groups-write_all groups rest h,
      )
      refl

-- The arrays have their lengths, and every counter is a `uint64_t`.
pub record IsStatistic (s : Statistic) : Type 0 where
  pub sizes : map length (performance_groups s.performance) ≡ group_sizes
  pub instructions : AreWords (instruction_words s.instructions)
  pub performance : All (λ words. All (λ w. w < 2 ^ 64) words) (performance_groups s.performance)

instructions_lem :
    (i : InstructionStatistic) (rest : List ℕ)
    → AreWords (instruction_words i)
    → read_words 14 (write_all (instruction_words i) ++ rest) ≡ ok (instruction_words i, rest)
unfolding instruction_words
instructions_lem i rest h = read_words-write_all (instruction_words i) rest h

pub performance_lem :
    (p : PerformanceSnapshot) (rest : List ℕ)
    → map length (performance_groups p) ≡ group_sizes
    → All AreWords (performance_groups p)
    → read_groups group_sizes (write_all (flatten (performance_groups p)) ++ rest)
      ≡ ok (performance_groups p, rest)
performance_lem p rest sizes h =
    ap (λ known. read_groups known (write_all (flatten (performance_groups p)) ++ rest)) (sym sizes)
    ∙ read_groups-write_all (performance_groups p) rest h

instruction_of-instruction_words :
    (i : InstructionStatistic) → instruction_of (instruction_words i) ≡ i
unfolding instruction_of instruction_words
instruction_of-instruction_words i = refl

pub performance_of-performance_groups :
    (p : PerformanceSnapshot) → performance_of (performance_groups p) ≡ p
unfolding performance_of performance_groups
performance_of-performance_groups p = refl

-- a checkpoint of the statistics restores every counter and leaves what follows it
pub restore-save_statistic :
    (s : Statistic) (rest : List ℕ) → IsStatistic s → restore (save s ++ rest) ≡ ok (s, rest)
unfolding restore save
restore-save_statistic s rest h =
    rw
      (
        append_assoc (write_all (instruction_words s.instructions))
            (write_all (flatten (performance_groups s.performance))) rest,
        instructions_lem s.instructions
            (write_all (flatten (performance_groups s.performance)) ++ rest) h.instructions,
        ◌>>=◌,
        performance_lem s.performance rest h.sizes h.performance,
        ◌>>=◌,
      )
      (ap (λ r. ok (r, rest)) (same s))
  where
    same :
        (s : Statistic)
        → record {
          instructions = instruction_of (instruction_words s.instructions);
          performance = performance_of (performance_groups s.performance);
        }
          ≡ s
    same s =
        rw
          (
            instruction_of-instruction_words s.instructions,
            performance_of-performance_groups s.performance,
          )
          refl
