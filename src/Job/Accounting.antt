-- ===== src/Job/Accounting.antt =====
-- What a job has used (win32/job_object_info.go, win32/job_object_info_win32.go).
use damon.Prelude.{ℕ, Result, ok, err}
use damon.Prelude.Words.{mul64}

pub record IoCounters : Type 0 where
  pub read_operation_count : ℕ
  pub write_operation_count : ℕ
  pub other_operation_count : ℕ
  pub read_transfer_count : ℕ
  pub write_transfer_count : ℕ
  pub other_transfer_count : ℕ

-- A duration is the bit pattern of an int64, in nanoseconds.
pub record BasicAccounting : Type 0 where
  pub total_user_time : ℕ
  pub total_kernel_time : ℕ
  pub this_period_total_user_time : ℕ
  pub this_period_total_kernel_time : ℕ
  pub total_page_fault_count : ℕ
  pub total_processes : ℕ
  pub active_processes : ℕ
  pub total_terminated_processes : ℕ

pub record Accounting : Type 0 where
  pub basic : BasicAccounting
  pub io : IoCounters

-- The kernel's structure has the same fields, with its times in ticks of 100 ns.
unfoldable pub from_ticks : BasicAccounting → BasicAccounting
from_ticks i = record i {
  total_user_time = mul64 i.total_user_time 100;
  total_kernel_time = mul64 i.total_kernel_time 100;
  this_period_total_user_time = mul64 i.this_period_total_user_time 100;
  this_period_total_kernel_time = mul64 i.this_period_total_kernel_time 100;
}

-- `(*JobObjectBasicAndIOAccounting).GetJobInfo`: the new contents of the receiver, or an error.
unfoldable pub get_job_info : Result ℕ Accounting → Result ℕ Accounting
unfolding from_ticks
get_job_info (err e) = err e
get_job_info (ok i) = ok (record { basic = from_ticks i.basic; io = i.io })
