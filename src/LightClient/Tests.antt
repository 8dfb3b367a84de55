-- ===== src/LightClient/Tests.antt =====
-- An instance for src/light_client/mod.rs.
use fluidic_node.Prelude.{ℕ, suc, zero, true, false, [], ◌∷◌, none, some, nat_eq}
use fluidic_node.Crypto.Signatures.{Ed25519}
use fluidic_node.Consensus.Certificate.{SynthesisCertificate, new as new_tracker}
use fluidic_node.LightClient.{LightClient, new, register_key}

abbrev toy : Ed25519
toy = record {
  VerifyingKey = ℕ;
  Signature = ℕ;
  from_slice = λ b. elim b [ [] ↦ none | x ∷ _ ↦ some x ];
  as_bytes = λ k. k ∷ [];
  from_bytes = λ b. some 5;
  verify = λ k _ s. elim s [ suc zero ↦ true | _ ↦ false ];
}

abbrev cert : SynthesisCertificate
cert = record {
  operator = 1;
  tick = 7;
  commutative_applied = 0;
  stateful_applied = 0;
  evm_applied = 0;
  commutative_root = 1;
  stateful_root = 0;
  balances_root = 0;
  stake_root = 0;
  reward_root = 0;
  evm_root = 0;
  metabolic_burned = 0;
  timestamp_ns = 0;
  signature = 1 ∷ [];
}

abbrev client : LightClient ℕ
client = register_key 1 11 (
    new (record {
      min_stake = 10;
      operators = (1, record { stake = 40; slash_nonce = none }) ∷ [];
      slash_counter = 0;
    }))
