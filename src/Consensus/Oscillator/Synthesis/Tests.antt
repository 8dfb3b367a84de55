-- ===== src/Consensus/Oscillator/Synthesis/Tests.antt =====
-- Runs and instances for the synthesis of src/consensus/oscillator.rs.
use fluidic_node.Prelude.{
  ℕ, if◌then◌else◌, suc, zero, ◌+◌, List, pos, negsuc, length, ◌≡◌, refl, true, false, [], ◌∷◌,
  none, some, inl, arith, any, nat_beq, nat_eq, list_eq, pair_eq,
}
use fluidic_node.Prelude.Map.{Map, lookup, IsMap}
use fluidic_node.Crypto.Signatures.{Ed25519}
use fluidic_node.Crypto.Shift.Stateful.{StatefulShift, verify_signature}
use fluidic_node.Crypto.Shift.Commutative.{Coordinate}
use fluidic_node.Field.WaveField.{account_balance, new as empty_field}
use fluidic_node.Field.WaveField.Transfers.{units}
use fluidic_node.Consensus.Domain.{DomainPolicy, percentage, causal}
use fluidic_node.Consensus.Dag.{node_of}
use fluidic_node.Consensus.Dag.Conservation.{total}
use fluidic_node.Consensus.Oscillator.{Oscillator, compute_signal_fee, check_and_record_nonce}
use fluidic_node.Consensus.Oscillator.Ingest.{
  ingest, ingest_stateful, queue_stateful, stateful_signal,
}
use fluidic_node.Consensus.Oscillator.Ingest.Refusal.{Ingested, ingest-Ingested}
use fluidic_node.Consensus.Oscillator.Synthesis.{
  Settlement, apply_nodes, apply_node, settle, pay, unsettled, commit, charge_fees,
}
use fluidic_node.Consensus.Oscillator.Synthesis.Authority.{Authorized, apply_nodes-Authorized}
use fluidic_node.Consensus.Oscillator.Synthesis.Fees.{IsFair, apply_nodes-conserves}
use fluidic_node.Consensus.Oscillator.Synthesis.Agreement.{commit_agrees}
use fluidic_node.Consensus.Oscillator.Batches.{Pending, takes_batches, synthesize_batches}
use fluidic_node.Consensus.Oscillator.Batches.Count.{dropped}
use fluidic_node.Consensus.Oscillator.Batches.Outcome.{
  group, of_domain, run_batches, Outcome, synthesize_batches-Outcome,
}
use fluidic_node.Field.Batch.{Delta}
use fluidic_node.Consensus.Oscillator.Synthesis.Once.{
  Run, stopped, stepped, settled, Apart, Run-Apart,
}

abbrev toy : Ed25519
toy = record {
  VerifyingKey = ℕ;
  Signature = ℕ;
  from_slice = λ b. elim b [ [] ↦ none | x ∷ _ ↦ some x ];
  as_bytes = λ k. k ∷ [];
  from_bytes = λ b. some 5;
  verify = λ k _ s. elim s [ suc zero ↦ true | _ ↦ false ];
}

abbrev payment : StatefulShift
payment = record {
  domain = 1;
  sender = 1;
  to = 2;
  amount = 500;
  vector_clock = (1, 1) ∷ [];
  predecessors = [];
  nonce = 1;
  timestamp_ns = 0;
  first_seen_at_ns = 7;
  signature = 1 ∷ [];
}

abbrev taxed : DomainPolicy
taxed = record {
  domain = 1;
  allows_commutative = false;
  stateful = true;
  ordering = causal;
  finalization_depth = 3;
  metabolic_lambda_ppm = 0;
  fee_policy = percentage 100;
}

abbrev at_bin : ℕ → Coordinate
at_bin c = record { c0 = c; c1 = 0; c2 = 0; c3 = 0 }

abbrev oscillator : Oscillator
oscillator = record {
  field = empty_field 4;
  dag = record {
    nodes = (30, node_of 30 payment 4 3) ∷ [];
    roots = 30 ∷ [];
    tips = (1, 30) ∷ [];
    balances = (1, 800) ∷ [];
    refused = [];
    max_clock = (1, 1) ∷ [];
    account_tips = [];
  };
  pending_commutative = [];
  pending_stateful = [];
  seen_signatures = [];
  seen_nonces = [];
  metabolic_engine = record { streams = []; total_burned = 0 };
  synthesis_tick = 4;
  certificates = [];
  domain_registry = (1, taxed) ∷ [];
  stake_table = record { min_stake = 10; operators = []; slash_counter = 0 };
  certificate_tracker = record { by_operator_tick = []; by_tick = [] };
  reward_pool = record { rewards = []; lp_rewards = [] };
  supply_tracker = record { circulating = 800; burned = 0 };
}

abbrev known_keys : Map ℕ ℕ
known_keys = (1, 5) ∷ []

abbrev settlement : Settlement
settlement = record {
  balances = (1, 300) ∷ (2, 495) ∷ [];
  hashes = 30 ∷ [];
  active = 1 ∷ 2 ∷ [];
  total_fees = 5;
  errors = [];
}

oscillator-apply_nodes :
    apply_nodes toy known_keys (30 ∷ []) oscillator (unsettled oscillator) ≡ some settlement
unfolding apply_nodes apply_node settle pay compute_signal_fee verify_signature
oscillator-apply_nodes = refl

apply_nodes-Authorized_example : Authorized toy known_keys oscillator 30
apply_nodes-Authorized_example =
    apply_nodes-Authorized toy known_keys (30 ∷ []) 30 oscillator settlement oscillator-apply_nodes
      (inl refl)

oscillator-IsFair : IsFair oscillator
oscillator-IsFair domain p bp there e = ground arith

apply_nodes-conserves_example : total settlement.balances + 5 ≡ 800
apply_nodes-conserves_example =
    apply_nodes-conserves toy known_keys (30 ∷ []) oscillator settlement oscillator-IsFair
      (omega arith) oscillator-apply_nodes

commit_agrees_example :
    let o' = commit 9 settlement settlement.balances oscillator in
    (o'.dag.balances ≡ settlement.balances)
    × ((j x : ℕ) → lookup j settlement.balances ≡ some x → units j o'.field ≡ x)
    × ((j x : ℕ)
        → lookup j settlement.balances ≡ some x
        → any (nat_beq j) settlement.active ≡ true
        → (account_balance j o'.field).last_active_tick ≡ 9)
    × ((j : ℕ)
        → lookup j settlement.balances ≡ none
        → account_balance j o'.field ≡ account_balance j oscillator.field)
commit_agrees_example = commit_agrees 9 settlement settlement.balances oscillator (refl, (refl, tt))

abbrev settled_run : Run toy (λ _. 2) oscillator ((30 ∷ []) ∷ [])
settled_run =
    stepped oscillator (30 ∷ [])
      (commit 9 settlement settlement.balances (charge_fees settlement oscillator)) []
      (settled known_keys (30 ∷ []) 9 settlement.balances settlement oscillator-apply_nodes refl
        refl)
      (stopped (commit 9 settlement settlement.balances (charge_fees settlement oscillator)))

Run-Apart_example : Apart toy (λ _. 2) ((30 ∷ []) ∷ [])
Run-Apart_example = Run-Apart toy (λ _. 2) oscillator ((30 ∷ []) ∷ []) settled_run

ingest-Ingested_example :
    Ingested 9 payment oscillator
      (ingest 9 (stateful_signal payment) oscillator).0
      (ingest 9 (stateful_signal payment) oscillator).1
ingest-Ingested_example = ingest-Ingested 9 payment oscillator

-- The nonce of an unsigned shift of amount zero is recorded, which blocks every lower one.
abbrev forged : StatefulShift
forged = record payment { amount = 0; nonce = 18446744073709551615; signature = [] }

forged-seen_nonces :
    (ingest 9 (stateful_signal forged) oscillator).0.seen_nonces
    ≡ ((1, 1), 18446744073709551615) ∷ []
unfolding ingest ingest_stateful queue_stateful check_and_record_nonce
forged-seen_nonces = refl

-- The deltas of two domains: the second one takes no commutative signals.
abbrev pool_deltas : List Pending
pool_deltas = (3, at_bin 1, pos 5, 7) ∷ (1, at_bin 1, pos 9, 7) ∷ (3, at_bin 2, negsuc 0, 8) ∷ []

abbrev pooled : Oscillator
pooled = record oscillator {
  pending_commutative = pool_deltas;
  domain_registry = (1, taxed) ∷ (3, record taxed { domain = 3; allows_commutative = true }) ∷ [];
}

synthesize_batches-Outcome_example :
    let (o', applied) = synthesize_batches pooled in
    ((groups : Map ℕ (List Delta)) × IsMap groups
      × ((k : ℕ)
          → group k groups ≡ (
              if takes_batches (lookup k pooled.domain_registry)
              then of_domain k pool_deltas
              else []))
      × (o'.field ≡ run_batches groups pooled.field)
      × ((k : ℕ) → Outcome k groups pooled.field (of_domain k o'.pending_commutative)))
    × (applied + length o'.pending_commutative + dropped pooled.domain_registry pool_deltas ≡ 3)
synthesize_batches-Outcome_example = synthesize_batches-Outcome pooled
