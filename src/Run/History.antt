-- ===== src/Run/History.antt =====
-- `printRecentCommits` (src/main.cc), and the ring it reads against the list of all commits.
use mathlib.Core.List.{append-nil, append_assoc}
use zircon_sim.Prelude.{
  ℕ, zero, suc, ◌+◌, ◌-◌, ◌%◌, ◌^◌, ◌≤◌, ◌<◌, min, ◌≡◌, refl, sym, ap, ◌∙◌, List, [], ◌∷◌, ◌++◌,
  arith, length, get_or, set, drop, length-append, length-set, ◌==◌, if◌then◌else◌,
}
use zircon_sim.Run.{SimulationState, RecentCommit, no_commit, initial}
use zircon_sim.Run.Lane.{remember}

-- The entries that are printed, from the index `history` on.
unfoldable pub history_loop : List RecentCommit → ℕ → ℕ → List RecentCommit
history_loop ring history zero = []
history_loop ring history (suc left) =
    get_or ring (history % 16) no_commit ∷ history_loop ring (history + 1) left

unfoldable pub recent_history : SimulationState → List RecentCommit
unfolding history_loop
recent_history s =
    let history_size = min s.recent_commit_count 16 in
    history_loop s.recent_commits (s.recent_commit_count - history_size) history_size

-- The commits of a run, one after the other.
unfoldable pub remember_all : SimulationState → List RecentCommit → SimulationState
remember_all s [] = s
remember_all s (commit ∷ commits) = remember_all (remember s commit) commits

-- The ring holds the last 16 of the commits seen.
record Holds (s : SimulationState) (seen : List RecentCommit) : Type 0 where
  ring : length s.recent_commits ≡ 16
  count : s.recent_commit_count ≡ length seen
  entries :
      (i : ℕ)
      → i < length seen
      → length seen ≤ i + 16
      → get_or s.recent_commits (i % 16) no_commit ≡ get_or seen i no_commit

get_or-set_lem :
    (ring : List RecentCommit) (i j : ℕ) (v : RecentCommit)
    → i < length ring
    → get_or (set ring i v) j no_commit ≡ (if i == j then v else get_or ring j no_commit)
get_or-set_lem [] i j v h = elim h [ ]
get_or-set_lem (c ∷ ring) zero zero v h = refl
get_or-set_lem (c ∷ ring) zero (suc j) v h = ground arith
get_or-set_lem (c ∷ ring) (suc i) zero v h = ground arith
get_or-set_lem (c ∷ ring) (suc i) (suc j) v h = ground (arith, get_or-set_lem ring i j v)

get_or-append_lem :
    (seen : List RecentCommit) (v : RecentCommit) (i : ℕ)
    → get_or (seen ++ v ∷ []) i no_commit
      ≡ (if length seen == i then v else get_or seen i no_commit)
get_or-append_lem [] v zero = refl
get_or-append_lem [] v (suc i) = ground arith
get_or-append_lem (c ∷ seen) v zero = ground arith
get_or-append_lem (c ∷ seen) v (suc i) = ground (arith, get_or-append_lem seen v i)

remember-Holds :
    (s : SimulationState) (seen : List RecentCommit) (v : RecentCommit)
    → length seen + 1 < 2 ^ 64
    → Holds s seen
    → Holds (remember s v) (seen ++ v ∷ [])
unfolding remember
remember-Holds s seen v bound h = record {
  ring = length-set s.recent_commits (s.recent_commit_count % 16) v ∙ h.ring;
  count = ground (arith, h.count, length-append seen (v ∷ []));
  entries = λ i below recent.
      let known =
        get_or-set_lem s.recent_commits (s.recent_commit_count % 16) (i % 16) v
          (omega (arith, h.ring)) in
      ground (
        arith,
        known,
        h.count,
        h.entries i,
        get_or-append_lem seen v i,
        length-append seen (v ∷ []),
      );
}

remember_all-Holds :
    (s : SimulationState) (seen commits : List RecentCommit)
    → length seen + length commits < 2 ^ 64
    → Holds s seen
    → Holds (remember_all s commits) (seen ++ commits)
unfolding remember_all
remember_all-Holds s seen [] bound h = rw (append-nil seen) h
remember_all-Holds s seen (v ∷ commits) bound h = rw (← append_assoc seen (v ∷ []) commits) (
    remember_all-Holds (remember s v) (seen ++ v ∷ []) commits
      (omega (arith, length-append seen (v ∷ []))) (remember-Holds s seen v (omega arith) h))

drop-cons :
    (seen : List RecentCommit) (i : ℕ)
    → i < length seen
    → drop i seen ≡ get_or seen i no_commit ∷ drop (i + 1) seen
drop-cons [] i h = elim h [ ]
drop-cons (c ∷ seen) zero h = refl
drop-cons (c ∷ seen) (suc i) h = ground (arith, drop-cons seen i)

drop-length : (seen : List RecentCommit) → drop (length seen) seen ≡ []
drop-length [] = refl
drop-length (c ∷ seen) = drop-length seen

history_loop_lem :
    (s : SimulationState) (seen : List RecentCommit) (left history : ℕ)
    → Holds s seen
    → history + left ≡ length seen
    → left ≤ 16
    → history_loop s.recent_commits history left ≡ drop history seen
unfolding history_loop
history_loop_lem s seen zero history h e small =
    let end' : history ≡ length seen = omega (arith, e) in rw end' (sym (drop-length seen))
history_loop_lem s seen (suc left) history h e small =
    rw (drop-cons seen history (omega arith), h.entries history (omega arith) (omega arith))
      (ap (λ others. get_or seen history no_commit ∷ others)
        (history_loop_lem s seen left (history + 1) h (omega arith) (omega arith)))

initial-Holds : {entry : ℕ} → Holds (initial entry) []
initial-Holds = record { ring = refl; count = refl; entries = λ i below recent. elim below [ ] }

-- after any number of commits below 2 ^ 64, what is printed is the last 16 of them, or all of them if
-- there are fewer, oldest first
pub remember_all-recent_history :
    (entry : ℕ) (commits : List RecentCommit)
    → length commits < 2 ^ 64
    → recent_history (remember_all (initial entry) commits) ≡ drop (length commits - 16) commits
unfolding recent_history
remember_all-recent_history entry commits bound =
    let h = remember_all-Holds (initial entry) [] commits (omega arith) initial-Holds in
    rw h.count (
      history_loop_lem (remember_all (initial entry) commits) commits (min (length commits) 16)
        (length commits - min (length commits) 16) h (omega arith) (omega arith)
      ∙ ap (λ first. drop first commits) (omega arith))
