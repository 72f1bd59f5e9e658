-- ===== src/Safety.antt =====
-- cerebro/core/safety: what may be deleted for good.
pub mod Gate
