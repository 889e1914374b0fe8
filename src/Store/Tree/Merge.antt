-- ===== src/Store/Tree/Merge.antt =====
-- `merge`: the earlier of two neighbours has the blocks of both, and the later one is gone.
pub mod Chapters
pub mod Joined
pub mod Neighbours
