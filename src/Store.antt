-- ===== src/Store.antt =====
-- engine/src/praelector/store: the chapters of a project in its database.
pub mod Rows
pub mod Session
pub mod Ordinals
pub mod Versions
pub mod Outline
pub mod Tree
pub mod Texts
pub mod Replace
pub mod Readings
