-- ===== src/Consensus.antt =====
-- The consensus modules, src/consensus/.
pub mod Certificate
pub mod Dag
pub mod Domain
pub mod Ntt
pub mod Oscillator
