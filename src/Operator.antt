-- ===== src/Operator.antt =====
-- Permissioned operators, src/operator/: stake and rewards.
pub mod Stake
pub mod Rewards
