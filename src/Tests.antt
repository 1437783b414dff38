-- ===== src/Tests.antt =====
-- Runs of the models at concrete inputs.
mod Data
mod Starts
mod Settings
mod Tables
mod Jobs
mod Reports
mod Processes
mod Texts
mod Measures
mod Mains
mod Rights
mod Handling
mod Accounts
mod Layouts
mod Journals
