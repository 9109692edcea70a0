-- ===== src/Mmr.antt =====
-- The mmr package: index arithmetic, the append, and the proofs.
pub mod Tree
pub mod IndexHeight
pub mod Errors
pub mod Hasher
pub mod Store
pub mod Mountains
pub mod Peaks
pub mod Add
pub mod Proof
pub mod Verify
pub mod Consistency
pub mod Leaves
pub mod Tests
