-- ===== src/Value.antt =====
-- The value modules, src/value/: the supply cap, value streams, metabolic decay, spectrum leases.
pub mod Supply
pub mod Stream
pub mod Metabolic
pub mod Spectrum
