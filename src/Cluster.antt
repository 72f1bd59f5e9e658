-- ===== src/Cluster.antt =====
-- cerebro/engines/image_formats.py (the clustering part) and cerebro/engines/image_dedup_engine.py.
pub mod UnionFind
pub mod Hamming
pub mod BkTree
pub mod Images
mod Tests
