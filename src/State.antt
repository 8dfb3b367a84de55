-- ===== src/State.antt =====
-- src/state/.
pub mod Merkle
pub mod Commitments
