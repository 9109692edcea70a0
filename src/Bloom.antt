-- ===== src/Bloom.antt =====
-- The bloom package: four parallel Bloom filters in one region of bytes, behind a header. A write
-- to the region is the new region beside the call's result.
pub mod Sizing
pub mod Header
pub mod Filter
mod Tests
