-- ===== src/Container/Stats.antt =====
-- `pollStats` of container/container.go: from the kernel's accounts to the statistics that the callback
-- `OnStats` is given.
use damon.Prelude.{ℕ, suc, Bool, true, false, List, [], ◌∷◌, ◌++◌, Result, ok, err}
use damon.Prelude.Words.{add64, mul64}
use damon.Job.Accounting.{IoCounters, Accounting, get_job_info}

pub record MemoryStats : Type 0 where
  pub working_set_size_bytes : ℕ
  pub private_usage_bytes : ℕ
  pub page_fault_count : ℕ

pub record CpuStats : Type 0 where
  pub total_run_time : ℕ
  pub total_cpu_time : ℕ
  pub total_kernel_time : ℕ
  pub total_user_time : ℕ

pub record IoStats : Type 0 where
  pub total_io_operations : ℕ
  pub total_read_io_operations : ℕ
  pub total_write_io_operations : ℕ
  pub total_other_io_operations : ℕ
  pub total_tx_count_bytes : ℕ
  pub total_tx_read_bytes : ℕ
  pub total_tx_written_bytes : ℕ
  pub total_tx_other_bytes : ℕ

pub record ProcessStats : Type 0 where
  pub cpu_stats : CpuStats
  pub memory_stats : MemoryStats
  pub io_stats : IoStats

-- The counters of `GetProcessMemoryInfo` that are passed on.
pub record MemoryCounters : Type 0 where
  pub working_set_size : ℕ
  pub private_usage : ℕ
  pub page_faults : ℕ

io_stats_of : IoCounters → IoStats
io_stats_of c = record {
  total_io_operations =
      add64 (add64 c.other_operation_count c.read_operation_count) c.write_operation_count;
  total_read_io_operations = c.read_operation_count;
  total_write_io_operations = c.write_operation_count;
  total_other_io_operations = c.other_operation_count;
  total_tx_count_bytes =
      add64 (add64 c.read_transfer_count c.write_transfer_count) c.other_transfer_count;
  total_tx_read_bytes = c.read_transfer_count;
  total_tx_written_bytes = c.write_transfer_count;
  total_tx_other_bytes = c.other_transfer_count;
}

-- `cpus` is `runtime.NumCPU()`, and `run_time` the time since the process was started.
unfoldable pub process_stats : ℕ → ℕ → Accounting → MemoryCounters → ProcessStats
unfolding io_stats_of
process_stats cpus run_time i m = record {
  cpu_stats = record {
    total_run_time = run_time;
    total_cpu_time = mul64 run_time cpus;
    total_kernel_time = i.basic.total_kernel_time;
    total_user_time = i.basic.total_user_time;
  };
  memory_stats = record {
    working_set_size_bytes = m.working_set_size;
    private_usage_bytes = m.private_usage;
    page_fault_count = m.page_faults;
  };
  io_stats = io_stats_of i.io;
}

-- One round of the loop: a closed channel, or ten seconds that have passed.
pub data Round : Type 0 where
  closed : Round
  passed : Result ℕ Accounting → Result ℕ MemoryCounters → ℕ → Round

-- Whether the loop goes on, what it handed to `OnStats`, and how many errors it logged.
pub record Poll : Type 0 where
  pub returned : Bool
  pub delivered : List ProcessStats
  pub logged : ℕ

deliver : ℕ → Result ℕ Accounting → Result ℕ MemoryCounters → ℕ → Poll → Poll
unfolding process_stats
deliver cpus (err e) m run_time p = record p { logged = suc p.logged }
deliver cpus (ok i) (err e) run_time p = record p { logged = suc p.logged }
deliver cpus (ok i) (ok m) run_time p = record p {
  delivered = p.delivered ++ (process_stats cpus run_time i m ∷ []);
}

poll_round : ℕ → Round → Poll → Poll
unfolding deliver get_job_info
poll_round cpus closed p = record p { returned = true }
poll_round cpus (passed accounts m run_time) p = deliver cpus (get_job_info accounts) m run_time p

round_if : ℕ → Bool → Round → Poll → Poll
unfolding poll_round
round_if cpus false r p = poll_round cpus r p
round_if cpus true r p = p

unfoldable pub poll_stats : ℕ → Poll → List Round → Poll
unfolding round_if
poll_stats cpus p [] = p
poll_stats cpus p (r ∷ rs) = poll_stats cpus (round_if cpus p.returned r p) rs
