-- ===== src/LightClient/Finality.antt =====
-- What src/light_client/mod.rs reports as final.
use fluidic_node.Prelude.{
  ℕ, ◌≤◌, ◌<◌, ◌≡◌, ◌≢◌, Option, none, some, nat_eq, pair_eq, list_eq, Result, ok,
}
use fluidic_node.Prelude.Map.{IsMap}
use fluidic_node.Crypto.Signatures.{Ed25519}
use fluidic_node.Operator.Stake.{StakeTable, quorum_threshold, is_staked, get_stake, slash}
use fluidic_node.Consensus.Certificate.{
  SynthesisCertificate, CertificateTracker, QuorumView, SlashingReason, view_eq, apply,
}
use fluidic_node.Consensus.Certificate.Tally.{groups}
use fluidic_node.Consensus.Certificate.Quorum.{support}
use fluidic_node.LightClient.{LightClient}

-- the view has the stake that the client's table asks of a quorum
abbrev pub HasQuorum : {Key : Type 0} → ℕ → QuorumView → LightClient Key → Type 0
HasQuorum now view c = quorum_threshold c.stake_table ≤ support view now c.tracker

abbrev pub IsGrouped : {Key : Type 0} → LightClient Key → Type 0
IsGrouped c = (tick : ℕ) → IsMap (groups tick c.tracker)

-- what a call that returned `r` made of a client
abbrev pub Reported :
    {Key : Type 0}
    → ℕ
    → LightClient Key
    → LightClient Key
    → Result (Option QuorumView) SlashingReason
    → Type 0
Reported now c c' r =
    (c.latest_finalized_tick ≤ c'.latest_finalized_tick)
    × (c'.latest_finalized_tick ≢ c.latest_finalized_tick
        → (c'.latest_finalized_tick ≡ now) × ((view : QuorumView) × HasQuorum now view c'))
    × ((view : QuorumView)
        → r ≡ ok (some view)
        → (now ≤ c'.latest_finalized_tick) × HasQuorum now view c')
    × (r ≡ ok none
        → 0 < quorum_threshold c'.stake_table
        → (view : QuorumView) → ¬ HasQuorum now view c')

module _ (ed : Ed25519) where
  abbrev applied :
      SynthesisCertificate
      → LightClient ed.VerifyingKey
      → CertificateTracker × StakeTable × Result (Unit {0}) SlashingReason
  applied cert c =
      apply ed c.key_registry (λ op. is_staked op c.stake_table) (λ op. get_stake op c.stake_table)
        (λ op t. (slash op t).0) cert c.tracker c.stake_table
