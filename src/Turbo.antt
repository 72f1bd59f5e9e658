-- ===== src/Turbo.antt =====
-- cerebro/core/scanners/turbo_scanner.py, cerebro/core/group_invariants.py and
-- cerebro/engines/turbo_file_engine.py.
pub mod Grouping
pub mod Sizes
pub mod Rows
pub mod Prefix
pub mod Jobs
pub mod Survivors
pub mod Hashing
pub mod Content
pub mod Duplicates
mod HashTests
pub mod Guard
pub mod Progress
pub mod Control
pub mod Results
mod Tests
