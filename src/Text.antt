-- ===== src/Text.antt =====
-- win32/string_utils.go and win32/userenv_win32.go: strings that are passed to and from the kernel.
pub mod Narrow
pub mod Wide
pub mod Environment
