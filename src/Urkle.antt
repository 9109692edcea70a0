-- ===== src/Urkle.antt =====
-- The urkle package: a trie of keys in post order, in a leaf table and a node store, and its proofs.
pub mod Views
pub mod Errors
pub mod Hash
pub mod Proof
pub mod Records
pub mod Frontier
pub mod Builder
pub mod Prove
pub mod Sizing
mod Tests
mod BuilderTests
