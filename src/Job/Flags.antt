-- ===== src/Job/Flags.antt =====
-- The limit and control flags of win32/job_object_info_win32.go, and the information classes.
use damon.Prelude.{ℕ}

abbrev pub limit_workingset : ℕ
limit_workingset = 0x00000001

abbrev pub limit_job_time : ℕ
limit_job_time = 0x00000004

abbrev pub limit_affinity : ℕ
limit_affinity = 0x00000010

abbrev pub limit_priority_class : ℕ
limit_priority_class = 0x00000020

abbrev pub limit_scheduling_class : ℕ
limit_scheduling_class = 0x00000080

abbrev pub limit_process_memory : ℕ
limit_process_memory = 0x00000100

-- Also `_JOB_OBJECT_LIMIT_JOB_MEMORY_HIGH`.
abbrev pub limit_job_memory : ℕ
limit_job_memory = 0x00000200

abbrev pub limit_breakaway_ok : ℕ
limit_breakaway_ok = 0x00000800

abbrev pub limit_silent_breakaway_ok : ℕ
limit_silent_breakaway_ok = 0x00001000

abbrev pub limit_kill_on_job_close : ℕ
limit_kill_on_job_close = 0x00002000

abbrev pub limit_job_memory_low : ℕ
limit_job_memory_low = 0x00008000

abbrev pub limit_read_bytes : ℕ
limit_read_bytes = 0x00010000

abbrev pub limit_write_bytes : ℕ
limit_write_bytes = 0x00020000

-- Also `_JOB_OBJECT_LIMIT_CPU_RATE_CONTROL`.
abbrev pub limit_rate_control : ℕ
limit_rate_control = 0x00040000

abbrev pub limit_io_rate_control : ℕ
limit_io_rate_control = 0x00080000

abbrev pub limit_net_rate_control : ℕ
limit_net_rate_control = 0x00100000

abbrev pub cpu_rate_enable : ℕ
cpu_rate_enable = 0x1

abbrev pub cpu_rate_weight_based : ℕ
cpu_rate_weight_based = 0x2

abbrev pub cpu_rate_hard_cap : ℕ
cpu_rate_hard_cap = 0x4

abbrev pub cpu_rate_notify : ℕ
cpu_rate_notify = 0x8

abbrev pub cpu_rate_min_max_rate : ℕ
cpu_rate_min_max_rate = 0x10

abbrev pub net_rate_enable : ℕ
net_rate_enable = 0x1

abbrev pub net_rate_max_bandwidth : ℕ
net_rate_max_bandwidth = 0x2

abbrev pub net_rate_dscp_tag : ℕ
net_rate_dscp_tag = 0x4

abbrev pub io_rate_enable : ℕ
io_rate_enable = 0x1
