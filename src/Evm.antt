-- ===== src/Evm.antt =====
-- The EVM transactions of a node: src/evm/mod.rs over src/evm/executor.rs.
pub mod Executor
pub mod Pool
pub mod Settled
mod Tests
