-- ===== src/Tests.antt =====
-- Concrete runs, and each theorem at a concrete input.
mod WalTests
mod TableTests
mod SsTableTests
mod CompactionTests
mod StoreTests
mod RecoveryTests
mod CliTests
mod HistoryTests
mod CrashTests
