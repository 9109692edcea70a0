-- ===== src/Massifs.antt =====
-- The packages below massifs/.
pub mod Reader
pub mod Snowflake
pub mod Errors
pub mod Layout
pub mod Start
pub mod Context
