-- ===== src/Crypto/Shift.antt =====
-- The signed messages of src/crypto/phase_shift.rs, an array of 32 bytes being a number.
pub mod Commutative
pub mod Stateful
pub mod Stake
pub mod Encoding
pub mod Separation
mod Tests
