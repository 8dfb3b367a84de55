-- ===== src/Consensus/Oscillator/Tests.antt =====
-- Runs and instances for src/consensus/oscillator.rs.
use fluidic_node.Prelude.{
  ℕ, ◌<◌, suc, zero, ◌≡◌, refl, true, false, List, [], ◌∷◌, none, some, arith, All, nat_eq, pair_eq,
}
use fluidic_node.Prelude.Map.{Map, lookup}
use fluidic_node.Crypto.Signatures.{Ed25519}
use fluidic_node.Crypto.Shift.Stake.{StakeShift, verify}
use fluidic_node.Operator.Stake.{get_stake}
use fluidic_node.Field.WaveField.{zero_balance, account_balance, new as empty_field}
use fluidic_node.Consensus.Dag.{new}
use fluidic_node.Consensus.Oscillator.{Oscillator, apply_stake}
use fluidic_node.Consensus.Oscillator.Staking.{worth, Restaked, apply_stake-Restaked}
use fluidic_node.Consensus.Oscillator.Nonces.{accepted, Above, Rising, accepted-Rising}

abbrev toy : Ed25519
toy = record {
  VerifyingKey = ℕ;
  Signature = ℕ;
  from_slice = λ b. elim b [ [] ↦ none | x ∷ _ ↦ some x ];
  as_bytes = λ k. k ∷ [];
  from_bytes = λ b. some 5;
  verify = λ k _ s. elim s [ suc zero ↦ true | _ ↦ false ];
}

abbrev node : Oscillator
node = record {
  field = record (empty_field 4) { accounts = (2, record zero_balance { units = 50 }) ∷ [] };
  dag = record new { balances = (2, 50) ∷ [] };
  pending_commutative = [];
  pending_stateful = [];
  seen_signatures = [];
  metabolic_engine = record { streams = []; total_burned = 0 };
  synthesis_tick = 4;
  certificates = [];
  seen_nonces = [];
  domain_registry = [];
  stake_table = record {
    min_stake = 10;
    operators = (2, record { stake = 20; slash_nonce = none }) ∷ [];
    slash_counter = 0;
  };
  certificate_tracker = record { by_operator_tick = []; by_tick = [] };
  reward_pool = record { rewards = []; lp_rewards = [] };
  supply_tracker = record { circulating = 70; burned = 0 };
}

abbrev bond : StakeShift
bond = record {
  operator = 2;
  public_key = 5;
  amount = 60;
  nonce = 1;
  timestamp_ns = 2;
  signature = 1 ∷ [];
}

node-worth : worth 2 node ≡ 70
unfolding account_balance get_stake new
node-worth = refl

apply_stake-Restaked_example :
    let (o', done) = apply_stake toy (λ _. 2) bond node in
    Restaked 2 60 node o' done
    × (done ≡ true → verify toy (λ _. 2) bond ≡ true)
    × (worth 2 node < 60 → done ≡ false)
apply_stake-Restaked_example =
    apply_stake-Restaked toy (λ _. 2) bond node (omega (arith, node-worth))

abbrev calls : List (ℕ × ℕ × ℕ)
calls = (2, 0, 4) ∷ (2, 0, 4) ∷ (2, 1, 3) ∷ (2, 0, 9) ∷ []

abbrev unseen : Map (ℕ × ℕ) ℕ
unseen = []

accepted-Rising_example :
    All (Above (lookup (2, 0) unseen)) (accepted 2 0 calls unseen)
    × Rising (accepted 2 0 calls unseen)
accepted-Rising_example = accepted-Rising 2 0 calls unseen
