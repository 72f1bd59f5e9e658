-- ===== src/Deletion.antt =====
-- cerebro/core/deletion.py and cerebro/core/pipeline.py: from a plan to files that are gone.
pub mod Adapters
pub mod Engine
pub mod Plan
pub mod Pipeline
pub mod Service
mod Tests
