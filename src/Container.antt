-- ===== src/Container.antt =====
-- container/container.go: the supervisor of one process in one job.
pub mod Notifications
pub mod Start
pub mod Stats
