-- ===== src/Review.antt =====
-- cerebro/v2/ui/flet_app/pages/review and review_flow: the review of duplicate groups.
pub mod Inspect
pub mod Router
pub mod Rules
pub mod Flow
pub mod Cart
