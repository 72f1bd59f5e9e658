-- ===== src/Services.antt =====
-- The services beside the scans: the scheduler, the thumbnail cache, the migration of the
-- configuration, and the pages of the history grid.
pub mod Scheduler
pub mod Thumbnails
pub mod History
pub mod Json
pub mod Migration
pub mod Snapshot
mod Tests
