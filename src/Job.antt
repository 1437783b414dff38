-- ===== src/Job.antt =====
-- win32/job_object*.go: job objects, the limits that are put on them, and what the kernel reports.
pub mod Flags
pub mod InfoClass
pub mod Kernel
pub mod Limits
pub mod Notify
pub mod CpuRate
pub mod Violations
pub mod Accounting
pub mod Object
pub mod IoRate
