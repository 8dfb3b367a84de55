-- ===== src/Crypto.antt =====
-- The signed payloads and their clocks, src/crypto/.
pub mod Signatures
pub mod VectorClock
pub mod Shift
