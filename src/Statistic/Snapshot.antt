-- ===== src/Statistic/Snapshot.antt =====
-- `PerformanceSnapshot` and the state of `Statistic` (include/Statistic.h, src/Statistic.cc), with
-- what a checkpoint holds of it: the counters in the order of their declaration, each a `uint64_t`.
use zircon_sim.Prelude.{ℕ, zero, suc, List, [], ◌∷◌, ◌++◌, replicate, get_or}
use zircon_sim.Checkpoint.{◌>>=◌, Reader, pure, write_u64, read_u64}
use zircon_sim.Statistic.{InstructionStatistic, no_instructions, observe_instruction}

-- The arrays have 6 pipelines or 2 load lanes.
pub record PerformanceSnapshot : Type 0 where
  pub icache_visit : ℕ
  pub icache_hit : ℕ
  pub icache_miss_cycles : ℕ
  pub fq_blocked_cycles : ℕ
  pub fq_empty_cycles : ℕ
  pub ftq_blocked_cycles : ℕ
  pub integer_free_list_blocked_cycles : ℕ
  pub floating_free_list_blocked_cycles : ℕ
  pub dispatch_blocked_cycles : ℕ
  pub branch : ℕ
  pub branch_fail : ℕ
  pub direct_jump : ℕ
  pub direct_jump_fail : ℕ
  pub call : ℕ
  pub call_fail : ℕ
  pub ret : ℕ
  pub ret_fail : ℕ
  pub indirect : ℕ
  pub indirect_fail : ℕ
  pub loop_training : ℕ
  pub loop_provider : ℕ
  pub loop_correct : ℕ
  pub rob_full_cycles : ℕ
  pub store_buffer_full_cycles : ℕ
  pub store_buffer_busy_cycles : ℕ
  pub issue_queue_full_cycles : List ℕ
  pub pipeline_issue_cycles : List ℕ
  pub pipeline_operand_wait_cycles : List ℕ
  pub pipeline_replay_blocked_cycles : List ℕ
  pub pipeline_execution_blocked_cycles : List ℕ
  pub divide_busy_cycles : ℕ
  pub dcache_load_visits : List ℕ
  pub dcache_load_hits : List ℕ
  pub dcache_load_misses : List ℕ
  pub dcache_load_retries : List ℕ
  pub dcache_load_retry_translation : List ℕ
  pub dcache_load_retry_forward_blocked : List ℕ
  pub dcache_load_retry_uncached_order : List ℕ
  pub dcache_load_retry_stale_lookup : List ℕ
  pub dcache_load_retry_miss_busy : List ℕ
  pub dcache_load_retry_store_conflict : List ℕ
  pub dcache_load_retry_lane_conflict : List ℕ
  pub dcache_store_visits : ℕ
  pub dcache_store_hits : ℕ
  pub dcache_store_misses : ℕ
  pub dcache_miss_busy_cycles : ℕ
  pub l2_instruction_visits : ℕ
  pub l2_instruction_hits : ℕ
  pub l2_instruction_misses : ℕ
  pub l2_data_visits : ℕ
  pub l2_data_hits : ℕ
  pub l2_data_misses : ℕ
  pub l2_instruction_victim_insertions : ℕ
  pub l2_data_victim_insertions : ℕ
  pub lower_memory_reads : ℕ
  pub lower_memory_writes : ℕ
  pub l2_engine_busy_cycles : ℕ

abbrev pub no_performance : PerformanceSnapshot
no_performance = record {
  icache_visit = 0;
  icache_hit = 0;
  icache_miss_cycles = 0;
  fq_blocked_cycles = 0;
  fq_empty_cycles = 0;
  ftq_blocked_cycles = 0;
  integer_free_list_blocked_cycles = 0;
  floating_free_list_blocked_cycles = 0;
  dispatch_blocked_cycles = 0;
  branch = 0;
  branch_fail = 0;
  direct_jump = 0;
  direct_jump_fail = 0;
  call = 0;
  call_fail = 0;
  ret = 0;
  ret_fail = 0;
  indirect = 0;
  indirect_fail = 0;
  loop_training = 0;
  loop_provider = 0;
  loop_correct = 0;
  rob_full_cycles = 0;
  store_buffer_full_cycles = 0;
  store_buffer_busy_cycles = 0;
  issue_queue_full_cycles = replicate 6 0;
  pipeline_issue_cycles = replicate 6 0;
  pipeline_operand_wait_cycles = replicate 6 0;
  pipeline_replay_blocked_cycles = replicate 6 0;
  pipeline_execution_blocked_cycles = replicate 6 0;
  divide_busy_cycles = 0;
  dcache_load_visits = replicate 2 0;
  dcache_load_hits = replicate 2 0;
  dcache_load_misses = replicate 2 0;
  dcache_load_retries = replicate 2 0;
  dcache_load_retry_translation = replicate 2 0;
  dcache_load_retry_forward_blocked = replicate 2 0;
  dcache_load_retry_uncached_order = replicate 2 0;
  dcache_load_retry_stale_lookup = replicate 2 0;
  dcache_load_retry_miss_busy = replicate 2 0;
  dcache_load_retry_store_conflict = replicate 2 0;
  dcache_load_retry_lane_conflict = replicate 2 0;
  dcache_store_visits = 0;
  dcache_store_hits = 0;
  dcache_store_misses = 0;
  dcache_miss_busy_cycles = 0;
  l2_instruction_visits = 0;
  l2_instruction_hits = 0;
  l2_instruction_misses = 0;
  l2_data_visits = 0;
  l2_data_hits = 0;
  l2_data_misses = 0;
  l2_instruction_victim_insertions = 0;
  l2_data_victim_insertions = 0;
  lower_memory_reads = 0;
  lower_memory_writes = 0;
  l2_engine_busy_cycles = 0;
}

pub record Statistic : Type 0 where
  pub instructions : InstructionStatistic
  pub performance : PerformanceSnapshot

abbrev pub init : Statistic
init = record { instructions = no_instructions; performance = no_performance }

unfoldable pub observe : Statistic → ℕ → Statistic
observe s instruction = record s { instructions = observe_instruction s.instructions instruction }

unfoldable pub set_performance : Statistic → PerformanceSnapshot → Statistic
set_performance s performance = record s { performance = performance }

-- The words of a structure, in memory order.
unfoldable pub instruction_words : InstructionStatistic → List ℕ
instruction_words p =
    p.alu ∷ p.branch ∷ p.jump ∷ p.load ∷ p.store ∷ p.multiply ∷ p.divide ∷ p.floating ∷ p.system
    ∷ p.other ∷ p.conditional_branch ∷ p.call ∷ p.ret ∷ p.indirect_jump ∷ []

-- The counters, with the arrays as they stand between the single ones.
unfoldable pub performance_groups : PerformanceSnapshot → List (List ℕ)
performance_groups p =
    (p.icache_visit ∷ p.icache_hit ∷ p.icache_miss_cycles ∷ p.fq_blocked_cycles ∷ p.fq_empty_cycles
      ∷ p.ftq_blocked_cycles ∷ p.integer_free_list_blocked_cycles
      ∷ p.floating_free_list_blocked_cycles ∷ p.dispatch_blocked_cycles ∷ p.branch ∷ p.branch_fail
      ∷ p.direct_jump ∷ p.direct_jump_fail ∷ p.call ∷ p.call_fail ∷ p.ret ∷ p.ret_fail ∷ p.indirect
      ∷ p.indirect_fail ∷ p.loop_training ∷ p.loop_provider ∷ p.loop_correct ∷ p.rob_full_cycles
      ∷ p.store_buffer_full_cycles ∷ p.store_buffer_busy_cycles ∷ [])
    ∷ p.issue_queue_full_cycles
    ∷ p.pipeline_issue_cycles
    ∷ p.pipeline_operand_wait_cycles
    ∷ p.pipeline_replay_blocked_cycles
    ∷ p.pipeline_execution_blocked_cycles
    ∷ (p.divide_busy_cycles ∷ [])
    ∷ p.dcache_load_visits
    ∷ p.dcache_load_hits
    ∷ p.dcache_load_misses
    ∷ p.dcache_load_retries
    ∷ p.dcache_load_retry_translation
    ∷ p.dcache_load_retry_forward_blocked
    ∷ p.dcache_load_retry_uncached_order
    ∷ p.dcache_load_retry_stale_lookup
    ∷ p.dcache_load_retry_miss_busy
    ∷ p.dcache_load_retry_store_conflict
    ∷ p.dcache_load_retry_lane_conflict
    ∷ (p.dcache_store_visits ∷ p.dcache_store_hits ∷ p.dcache_store_misses
        ∷ p.dcache_miss_busy_cycles ∷ p.l2_instruction_visits ∷ p.l2_instruction_hits
        ∷ p.l2_instruction_misses ∷ p.l2_data_visits ∷ p.l2_data_hits ∷ p.l2_data_misses
        ∷ p.l2_instruction_victim_insertions ∷ p.l2_data_victim_insertions ∷ p.lower_memory_reads
        ∷ p.lower_memory_writes ∷ p.l2_engine_busy_cycles ∷ [])
    ∷ []

unfoldable pub flatten : List (List ℕ) → List ℕ
flatten [] = []
flatten (words ∷ groups) = words ++ flatten groups

unfoldable pub write_all : List ℕ → List ℕ
write_all [] = []
write_all (word ∷ words) = write_u64 word ++ write_all words

unfoldable pub save : Statistic → List ℕ
unfolding instruction_words performance_groups flatten write_all
save s =
    write_all (instruction_words s.instructions)
    ++ write_all (flatten (performance_groups s.performance))

-- The sizes of the groups in the declaration.
abbrev pub group_sizes : List ℕ
group_sizes = 25 ∷ 6 ∷ 6 ∷ 6 ∷ 6 ∷ 6 ∷ 1 ∷ 2 ∷ 2 ∷ 2 ∷ 2 ∷ 2 ∷ 2 ∷ 2 ∷ 2 ∷ 2 ∷ 2 ∷ 2 ∷ 15 ∷ []

unfoldable pub read_words : ℕ → Reader (List ℕ)
read_words zero = pure []
read_words (suc left) = do word ← read_u64; words ← read_words left; pure (word ∷ words)

unfoldable pub read_groups : List ℕ → Reader (List (List ℕ))
unfolding read_words
read_groups [] = pure []
read_groups (size ∷ sizes) = do
  words ← read_words size
  groups ← read_groups sizes
  pure (words ∷ groups)

unfoldable pub instruction_of : List ℕ → InstructionStatistic
instruction_of words = record {
  alu = get_or words 0 0;
  branch = get_or words 1 0;
  jump = get_or words 2 0;
  load = get_or words 3 0;
  store = get_or words 4 0;
  multiply = get_or words 5 0;
  divide = get_or words 6 0;
  floating = get_or words 7 0;
  system = get_or words 8 0;
  other = get_or words 9 0;
  conditional_branch = get_or words 10 0;
  call = get_or words 11 0;
  ret = get_or words 12 0;
  indirect_jump = get_or words 13 0;
}

unfoldable pub performance_of : List (List ℕ) → PerformanceSnapshot
performance_of groups =
    let singles = get_or groups 0 [] in
    let totals = get_or groups 18 [] in
    record {
      icache_visit = get_or singles 0 0;
      icache_hit = get_or singles 1 0;
      icache_miss_cycles = get_or singles 2 0;
      fq_blocked_cycles = get_or singles 3 0;
      fq_empty_cycles = get_or singles 4 0;
      ftq_blocked_cycles = get_or singles 5 0;
      integer_free_list_blocked_cycles = get_or singles 6 0;
      floating_free_list_blocked_cycles = get_or singles 7 0;
      dispatch_blocked_cycles = get_or singles 8 0;
      branch = get_or singles 9 0;
      branch_fail = get_or singles 10 0;
      direct_jump = get_or singles 11 0;
      direct_jump_fail = get_or singles 12 0;
      call = get_or singles 13 0;
      call_fail = get_or singles 14 0;
      ret = get_or singles 15 0;
      ret_fail = get_or singles 16 0;
      indirect = get_or singles 17 0;
      indirect_fail = get_or singles 18 0;
      loop_training = get_or singles 19 0;
      loop_provider = get_or singles 20 0;
      loop_correct = get_or singles 21 0;
      rob_full_cycles = get_or singles 22 0;
      store_buffer_full_cycles = get_or singles 23 0;
      store_buffer_busy_cycles = get_or singles 24 0;
      issue_queue_full_cycles = get_or groups 1 [];
      pipeline_issue_cycles = get_or groups 2 [];
      pipeline_operand_wait_cycles = get_or groups 3 [];
      pipeline_replay_blocked_cycles = get_or groups 4 [];
      pipeline_execution_blocked_cycles = get_or groups 5 [];
      divide_busy_cycles = get_or (get_or groups 6 []) 0 0;
      dcache_load_visits = get_or groups 7 [];
      dcache_load_hits = get_or groups 8 [];
      dcache_load_misses = get_or groups 9 [];
      dcache_load_retries = get_or groups 10 [];
      dcache_load_retry_translation = get_or groups 11 [];
      dcache_load_retry_forward_blocked = get_or groups 12 [];
      dcache_load_retry_uncached_order = get_or groups 13 [];
      dcache_load_retry_stale_lookup = get_or groups 14 [];
      dcache_load_retry_miss_busy = get_or groups 15 [];
      dcache_load_retry_store_conflict = get_or groups 16 [];
      dcache_load_retry_lane_conflict = get_or groups 17 [];
      dcache_store_visits = get_or totals 0 0;
      dcache_store_hits = get_or totals 1 0;
      dcache_store_misses = get_or totals 2 0;
      dcache_miss_busy_cycles = get_or totals 3 0;
      l2_instruction_visits = get_or totals 4 0;
      l2_instruction_hits = get_or totals 5 0;
      l2_instruction_misses = get_or totals 6 0;
      l2_data_visits = get_or totals 7 0;
      l2_data_hits = get_or totals 8 0;
      l2_data_misses = get_or totals 9 0;
      l2_instruction_victim_insertions = get_or totals 10 0;
      l2_data_victim_insertions = get_or totals 11 0;
      lower_memory_reads = get_or totals 12 0;
      lower_memory_writes = get_or totals 13 0;
      l2_engine_busy_cycles = get_or totals 14 0;
    }

-- The two structures are read as they stand in memory; nothing lies between their counters.
unfoldable pub restore : Reader Statistic
unfolding read_groups instruction_of performance_of
restore = do
  words ← read_words 14
  groups ← read_groups group_sizes
  pure (record { instructions = instruction_of words; performance = performance_of groups })
