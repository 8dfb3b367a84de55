-- ===== src/LightClient.antt =====
-- `LightClient`, src/light_client/mod.rs. Its locks make each call one step.
pub mod Finality
mod Tests
use fluidic_node.Prelude.{ℕ, Bool, true, [], Option, none, some, max, nat_eq, Result, ok, err}
use fluidic_node.Prelude.Map.{Map, insert}
use fluidic_node.Crypto.Signatures.{Ed25519}
use fluidic_node.Operator.Stake.{StakeTable, is_staked, get_stake, quorum_threshold, slash}
use fluidic_node.Consensus.Certificate.{
  SynthesisCertificate, CertificateTracker, SlashingReason, QuorumView, apply, check_quorum,
  new as new_tracker,
}

pub record LightClient (Key : Type 0) : Type 0 where
  pub key_registry : Map ℕ Key
  pub stake_table : StakeTable
  pub tracker : CertificateTracker
  pub latest_finalized_tick : ℕ

abbrev pub new : {Key : Type 0} → StakeTable → LightClient Key
new stake_table = record {
  key_registry = [];
  stake_table = stake_table;
  tracker = new_tracker;
  latest_finalized_tick = 0;
}

abbrev pub register_key : {Key : Type 0} → ℕ → Key → LightClient Key → LightClient Key
register_key account key c = record c { key_registry = insert account key c.key_registry }

-- past the tracker's acceptance: what the tick's quorum does to the latest tick with one
abbrev pub finalized :
    {Key : Type 0}
    → ℕ
    → LightClient Key
    → Option (QuorumView × ℕ)
    → LightClient Key × Result (Option QuorumView) SlashingReason
finalized now c none = (c, ok none)
finalized now c (some (view, held)) =
    (record c { latest_finalized_tick = max c.latest_finalized_tick now }, ok (some view))

-- the `?` after the tracker's `apply`
abbrev pub settle :
    {Key : Type 0}
    → ℕ
    → LightClient Key
    → Result (Unit {0}) SlashingReason
    → LightClient Key × Result (Option QuorumView) SlashingReason
settle now c (err e) = (c, err e)
settle now c (ok _) = finalized now c (check_quorum now (quorum_threshold c.stake_table) c.tracker)

unfoldable pub ingest_certificate :
    (ed : Ed25519)
    → SynthesisCertificate
    → LightClient ed.VerifyingKey
    → LightClient ed.VerifyingKey × Result (Option QuorumView) SlashingReason
ingest_certificate ed cert c =
    let (tracker, stake_table, r) =
      apply ed c.key_registry (λ op. is_staked op c.stake_table) (λ op. get_stake op c.stake_table)
        (λ op t. (slash op t).0) cert c.tracker c.stake_table in
    settle cert.tick (record c { tracker = tracker; stake_table = stake_table }) r
