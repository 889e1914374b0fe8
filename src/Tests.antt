-- ===== src/Tests.antt =====
-- The theorems at concrete inputs.
mod Samples
mod DomainTests
mod StateTests
mod LogTests
mod ManagerTests
mod CatalogTests
mod PlanTests
mod SpansTests
mod RunsTests
mod MuxTests
mod ChunksTests
mod SentencesTests
mod GpuTests
mod StoreTests
