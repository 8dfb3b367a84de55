-- ===== src/Field.antt =====
-- The state that signals act on, src/field/.
pub mod WaveField
pub mod Batch
