-- ===== src/Consensus/Oscillator.antt =====
-- The oscillator's state and its handling of stakes, nonces, fees, domains and certificates,
-- src/consensus/oscillator.rs. Its locks make each call one step. The log is not modelled.
pub mod Staking
pub mod Nonces
pub mod Ingest
pub mod Synthesis
pub mod Batches
mod Tests
use fluidic_node.Prelude.{
  ℕ, ℤ, List, ◌*◌, ◌/◌, ◌-◌, Bool, true, false, not, Option, none, some, if◌then◌else◌, ltb, leb,
  nat_beq, add_u128, sub_u128, saturating_mul, saturating_sub, nat_eq, pair_eq, Result, ok, err,
}
use fluidic_node.Prelude.Map.{Map, lookup, insert, update, unwrap_or}
use fluidic_node.Prelude.Bytes.{Bytes}
use fluidic_node.Crypto.Signatures.{Ed25519}
use fluidic_node.Crypto.Shift.Stake.{StakeShift}
use fluidic_node.Crypto.Shift.Stake as StakeSignal
use fluidic_node.Crypto.Shift.Stateful.{StatefulShift}
use fluidic_node.Crypto.Shift.Commutative.{Coordinate}
use fluidic_node.Value.Metabolic.{MetabolicDecayEngine}
use fluidic_node.Consensus.Dag.{VectorClockDag}
use fluidic_node.Value.Supply.{SupplyTracker, mint, burn}
use fluidic_node.Operator.Stake.{StakeTable, is_staked, get_stake, quorum_threshold, slash, stake}
use fluidic_node.Operator.Rewards.{RewardPool, distribute_fees}
use fluidic_node.Field.WaveField.{
  WaveField, account_balance, credit_account, debit_account, set_non_decaying,
}
use fluidic_node.Consensus.Certificate.{
  SynthesisCertificate, CertificateTracker, SlashingReason, QuorumView, apply, check_quorum,
}
use fluidic_node.Consensus.Domain.{
  DomainPolicy, DomainRegistry, PolicyError, FeePolicy, flat, percentage, metabolic_only, validated,
  register, contains, domain_reservation_fee_units,
}

-- `Oscillator` without its keys, its clock and its EVM pool
pub record Oscillator : Type 0 where
  pub field : WaveField
  pub dag : VectorClockDag
  pub pending_commutative : List (ℕ × Coordinate × ℤ × ℕ)
  pub pending_stateful : List StatefulShift
  pub seen_signatures : Map Bytes (Unit {0})
  pub seen_nonces : Map (ℕ × ℕ) ℕ
  pub metabolic_engine : MetabolicDecayEngine
  pub synthesis_tick : ℕ
  pub certificates : Map ℕ SynthesisCertificate
  pub domain_registry : DomainRegistry
  pub stake_table : StakeTable
  pub certificate_tracker : CertificateTracker
  pub reward_pool : RewardPool
  pub supply_tracker : SupplyTracker

-- The Boolean is the call's success.
unfoldable pub check_and_record_nonce : ℕ → ℕ → ℕ → Map (ℕ × ℕ) ℕ → Map (ℕ × ℕ) ℕ × Bool
check_and_record_nonce account domain nonce seen = elim (lookup (account, domain) seen) [
  | none ↦ (insert (account, domain) nonce seen, true)
  | some last ↦
      if leb nonce last then (seen, false) else (insert (account, domain) nonce seen, true)
]

abbrev pub seed_balance : ℕ → ℕ → VectorClockDag → VectorClockDag
seed_balance account amount d = record d {
  balances = update account 0 (λ x. add_u128 x amount) d.balances;
}

unfoldable pub seed_account : ℕ → ℕ → Oscillator → Oscillator
seed_account account amount o =
    let (supply_tracker, minted) = mint amount o.supply_tracker in
    if not minted then o else record o {
      supply_tracker = supply_tracker;
      dag = seed_balance account amount o.dag;
      field = credit_account account amount o.field;
    }

-- `ingest_certificate` and the closures that it passes
unfoldable pub ingest_certificate :
    (ed : Ed25519)
    → Map ℕ ed.VerifyingKey
    → SynthesisCertificate
    → Oscillator
    → Oscillator × Result (Unit {0}) SlashingReason
ingest_certificate ed key_registry cert o =
    let (tracker, (stake_table, supply_tracker), r) =
      apply ed key_registry (λ op. is_staked op o.stake_table) (λ op. get_stake op o.stake_table)
        (λ op s. let (table, nonce, burned) = slash op s.0 in (table, burn burned s.1)) cert
        o.certificate_tracker (o.stake_table, o.supply_tracker) in
    (
      record o {
        certificate_tracker = tracker;
        stake_table = stake_table;
        supply_tracker = supply_tracker;
      },
      r,
    )

pub data RegisterError : Type 0 where
  invalid_policy : PolicyError → RegisterError
  already_registered insufficient_balance debit_failed : RegisterError

unfoldable pub register_domain :
    DomainPolicy → ℕ → Oscillator → Oscillator × Result (Unit {0}) RegisterError
register_domain policy registrant o = elim (validated policy) [
  | err e ↦ (o, err (invalid_policy e))
  | ok p ↦
      if contains p.domain o.domain_registry
      then (o, err already_registered)
      else if ltb (account_balance registrant o.field).units domain_reservation_fee_units
      then (o, err insufficient_balance)
      else let (field, taken) = debit_account registrant domain_reservation_fee_units o.field in
        if not taken then (record o { field = field }, err debit_failed) else (
          record o {
            field = field;
            reward_pool = distribute_fees domain_reservation_fee_units o.stake_table o.reward_pool;
            domain_registry = register p o.domain_registry;
          },
          ok tt,
        )
]

-- `apply_stake`, past the checks of the signature and the nonce
unfoldable pub restake : ℕ → ℕ → Oscillator → Oscillator × Bool
restake operator amount o =
    let previous_locked : ℕ = get_stake operator o.stake_table in
    let dag_balance : ℕ = unwrap_or (lookup operator o.dag.balances) 0 in
    if nat_beq amount previous_locked
    then (o, true)
    else if ltb previous_locked amount
    then (let additional : ℕ = amount - previous_locked in
        if ltb (account_balance operator o.field).units additional
        then (o, false)
        else let (field, taken) = debit_account operator additional o.field in
          if not taken then (record o { field = field }, false) else (
            record o {
              field = field;
              dag = record o.dag {
                balances = insert operator (saturating_sub dag_balance additional) o.dag.balances;
              };
              stake_table = (stake operator amount o.stake_table).0;
            },
            true,
          ))
    else let refund : ℕ = previous_locked - amount in
      (
        record o {
          field = credit_account operator refund o.field;
          dag = record o.dag {
            balances = insert operator (add_u128 dag_balance refund) o.dag.balances;
          };
          stake_table = (stake operator amount o.stake_table).0;
        },
        true,
      )

unfoldable pub apply_stake : Ed25519 → (Bytes → ℕ) → StakeShift → Oscillator → Oscillator × Bool
apply_stake ed blake3 s o =
    if not (StakeSignal.verify ed blake3 s)
    then (o, false)
    else let (seen, fresh) = check_and_record_nonce s.operator 0 s.nonce o.seen_nonces in
      if not fresh
      then (o, false)
      else restake s.operator s.amount (record o { seen_nonces = seen })

pub data FeeError : Type 0 where
  unknown_domain amount_below_fee : FeeError

-- The `match` of `compute_signal_fee`: the fee and the amount after it. The subtraction after a
-- percentage is the machine's.
abbrev pub policy_fee : FeePolicy → ℕ → Result (ℕ × ℕ) FeeError
policy_fee (flat fee) amount =
    if ltb amount fee then err amount_below_fee else ok (fee, amount - fee)
policy_fee (percentage bp) amount =
    let fee : ℕ = saturating_mul amount bp / 10000 in ok (fee, sub_u128 amount fee)
policy_fee metabolic_only amount = ok (0, amount)

unfoldable pub compute_signal_fee : StatefulShift → Oscillator → Result (ℕ × ℕ) FeeError
compute_signal_fee s o = elim (lookup s.domain o.domain_registry) [
  | none ↦ err unknown_domain
  | some policy ↦ policy_fee policy.fee_policy s.amount
]

-- `Oscillator::check_quorum`
unfoldable pub quorum_at : ℕ → Oscillator → Option (QuorumView × ℕ)
quorum_at now o = check_quorum now (quorum_threshold o.stake_table) o.certificate_tracker
