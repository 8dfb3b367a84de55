-- ===== src/Lib.antt =====
-- The parts of the Fluidic node that decide value and agreement, and the theorems about them.
--
-- The node ingests signed signals, orders the stateful ones in a causal DAG, applies them to the
-- balances of a wave field at each synthesis tick, decays idle balances, pays the burned value out to
-- operators and liquidity providers, and agrees with its peers through signed certificates weighed by
-- stake. The files follow the crate's modules; every path below starts at the repository's root.
--
-- - Prelude: maps as association lists (Map), byte strings and fixed-width encodings (Bytes), machine
--   words (Words), lists, Boolean tests and keys with decidable equality.
-- - Value: src/value/. Supply is `SupplyTracker`; Stream is `ValueStream` and `StreamState`; Metabolic
--   is `pow`, `decayed_balance`, `MetabolicStream` and `MetabolicDecayEngine`; Spectrum is `BandLease`
--   and `Spectrum`.
-- - Crypto: src/crypto/. VectorClock is `VectorClock` of phase_shift.rs; Shift holds the three signed
--   messages of that file; Signatures is what the code takes from ed25519_dalek.
-- - Operator: src/operator/. Stake is `StakeTable`, Rewards is `RewardPool`.
-- - Field: src/field/. WaveField is the balances of `WaveField` and their decay, Batch is
--   `synthesize_commutative_batch`.
-- - State: src/state/. Merkle is `MerkleAccumulator`; Commitments is `root` of operator/stake.rs and of
--   operator/rewards.rs.
-- - Network: src/network/. Buffer is `RingBuffer`, Node is `encode_packet`, `broadcast` and
--   `next_shift`.
-- - Evm: src/evm/. Executor is `EvmExecutor`, Pool is `EvmPool`.
-- - Consensus: src/consensus/. Certificate is `SynthesisCertificate`, `QuorumView` and
--   `CertificateTracker`; Dag is `VectorClockDag`, with the topological order in Dag/Order, the clock
--   check in Dag/Causality, the application of balances in Dag/Balances and `detect_double_spends` in
--   Dag/DoubleSpend; Ntt is the transform of ntt.rs; Domain is the registry of policies, with the
--   bytes of api/routes.rs that a registrant signs; Oscillator joins them, as `Oscillator` does, with
--   the ingestion of signals in Oscillator/Ingest, the stages of `synthesize` in
--   Oscillator/Synthesis and its commutative batches in Oscillator/Batches; the roots of a certificate
--   are in Certificate/Roots.
-- - LightClient: src/light_client/mod.rs, `LightClient`, which weighs certificates by its own tracker.
--
-- State is passed explicitly: an operation takes the state last and returns what it wrote, with its
-- result. A lock or an atomic makes each call one step, so a run is a list of calls. A hash map is an
-- association list and is iterated from the left, which stands for the order that it leaves open;
-- theorems that need it ask that no key is listed twice (IsMap). Numbers are natural numbers with the
-- machine's wrap-around (`% 2 ^ 64`, `% 2 ^ 128`) and saturation written out; arrays of 32 bytes are
-- the numbers that they spell; error texts are constructors.
--
-- Six loops run on fuel. `pow` and `mod_pow` get 64 rounds, since each round halves a 64-bit exponent;
-- the stages of the transform get 64, since each doubles a length that stays below a 64-bit size; so
-- it is for the next power of two and for the levels of a Merkle tree of at most 2^63 leaves. The
-- `while` of `topological_order` gets a round for each ready hash and each edge, since a round takes one
-- ready hash away and every edge that it removes makes at most one hash ready.
--
-- ed25519_dalek, blake3, the crate bytes, bincode and revm are parameters, with the laws of a buffer
-- that the code relies on. Not modelled: the HTTP interface but for the bytes of a registration, the
-- gossip transport, persistence, the bridge, the composition of the synthesis stages with the closing
-- certificate, clocks and floats.
pub mod Prelude
pub mod Value
pub mod Crypto
pub mod Operator
pub mod Field
pub mod Consensus
pub mod LightClient
pub mod Network
pub mod Evm
pub mod State
