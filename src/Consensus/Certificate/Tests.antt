-- ===== src/Consensus/Certificate/Tests.antt =====
-- Runs and instances for src/consensus/certificate.rs.
use fluidic_node.Prelude.{
  ℕ, suc, zero, ◌<◌, ◌≤◌, ◌≡◌, ◌≢◌, refl, ◌⊎◌, true, false, List, [], ◌∷◌, none, some, arith, ok,
  err, length, nat_eq, pair_eq, list_eq,
}
use fluidic_node.Prelude.Map.{Map}
use fluidic_node.Prelude.Bytes.{to_le_bytes, to_be_bytes}
use fluidic_node.Crypto.Signatures.{Ed25519}
use fluidic_node.Operator.Stake.{
  StakeTable, quorum_threshold, total_stake, unslashed_stakes, is_staked, get_stake,
}
use fluidic_node.Consensus.Certificate.{
  SynthesisCertificate, accept, tally, signing_bytes, QuorumView, view_of, new, apply, check_quorum,
  conflicting_certificate, view_eq,
}
use fluidic_node.Consensus.Certificate.Encoding.{HasWidths, signing_bytes_injective}
use fluidic_node.Consensus.Certificate.Roots.{balances_root, balances_root_unique}
use fluidic_node.Consensus.Certificate.Quorum.{receive_all, support, quorum_unique}
use fluidic_node.Consensus.Certificate.Equivocation.{apply_twice, IsEligible}

-- A signature scheme in which the number 1 signs everything.
abbrev toy : Ed25519
toy = record {
  VerifyingKey = ℕ;
  Signature = ℕ;
  from_slice = λ b. elim b [ [] ↦ none | x ∷ _ ↦ some x ];
  as_bytes = λ k. k ∷ [];
  from_bytes = λ b. elim b [ [] ↦ none | x ∷ _ ↦ some x ];
  verify = λ k _ s. elim s [ suc zero ↦ true | _ ↦ false ];
}

abbrev cert : ℕ → ℕ → SynthesisCertificate
cert op root = record {
  operator = op;
  tick = 7;
  commutative_applied = 0;
  stateful_applied = 0;
  evm_applied = 0;
  commutative_root = root;
  stateful_root = 0;
  balances_root = 0;
  stake_root = 0;
  reward_root = 0;
  evm_root = 0;
  metabolic_burned = 0;
  timestamp_ns = 0;
  signature = 1 ∷ [];
}

abbrev keys : Map ℕ ℕ
keys = (1, 11) ∷ (2, 12) ∷ (3, 13) ∷ []

abbrev table : StakeTable
table = record {
  min_stake = 10;
  operators =
      (1, record { stake = 40; slash_nonce = none })
      ∷ (2, record { stake = 40; slash_nonce = none })
      ∷ (3, record { stake = 10; slash_nonce = none })
      ∷ [];
  slash_counter = 0;
}

abbrev slash : ℕ → List ℕ → List ℕ
slash op s = op ∷ s

abbrev certs : List SynthesisCertificate
certs = cert 1 5 ∷ cert 3 9 ∷ cert 2 5 ∷ cert 2 5 ∷ []

abbrev agreed : QuorumView
agreed = view_of (cert 1 5)

agreed-support : support agreed 7 (receive_all toy keys table slash certs new []) ≡ 80
unfolding receive_all apply accept tally new is_staked get_stake signing_bytes to_le_bytes
    to_be_bytes
agreed-support = refl

table_threshold : (quorum_threshold table ≡ 61) × (total_stake table ≡ 90)
unfolding quorum_threshold total_stake unslashed_stakes
table_threshold = (refl, refl)

quorum_unique_example :
    (check_quorum 7 (quorum_threshold table) (receive_all toy keys table slash certs new [])
      ≡ some (agreed, support agreed 7 (receive_all toy keys table slash certs new [])))
    × ((w : QuorumView)
        → quorum_threshold table ≤ support w 7 (receive_all toy keys table slash certs new [])
        → w ≡ agreed)
unfolding unslashed_stakes
quorum_unique_example =
    quorum_unique toy keys table slash certs [] 7 agreed (omega arith)
      (omega (arith, table_threshold.1)) (omega (arith, table_threshold.1))
      (omega (arith, table_threshold.0, agreed-support))

cert-HasWidths : (op root : ℕ) → op < 1000 → root < 1000 → HasWidths (cert op root)
cert-HasWidths op root h k = omega arith

eligible : (root : ℕ) → IsEligible toy keys (λ _. true) (λ _. 40) slash (cert 1 root) 11
unfolding signing_bytes
eligible root = record { registered = refl; signed = refl; staked = refl }

-- the same certificate under another signature
abbrev resigned : SynthesisCertificate
resigned = record (cert 1 5) { signature = 2 ∷ [] }

signing_bytes_injective_example : record (cert 1 5) { signature = 2 ∷ [] } ≡ resigned
unfolding signing_bytes
signing_bytes_injective_example =
    signing_bytes_injective (cert 1 5) resigned (cert-HasWidths 1 5 (omega arith) (omega arith))
      (omega arith) refl

apply_twice_example :
    let (t', s', _) = apply toy keys (λ _. true) (λ _. 40) slash (cert 1 5) new [] in
    let second = apply toy keys (λ _. true) (λ _. 40) slash (cert 1 6) t' s' in
    ((record (cert 1 5) { signature = 1 ∷ [] } ≡ cert 1 6) × (second ≡ (t', [], ok tt)))
    ⊎ ((record (cert 1 5) { signature = 1 ∷ [] } ≢ cert 1 6)
        × (second ≡ (t', 1 ∷ [], err conflicting_certificate)))
unfolding new
apply_twice_example =
    apply_twice toy keys (λ _. true) (λ _. 40) slash (cert 1 5) (cert 1 6) 11 new [] (eligible 5)
      (eligible 6) (cert-HasWidths 1 5 (omega arith) (omega arith))
      (cert-HasWidths 1 6 (omega arith) (omega arith)) refl refl refl

abbrev first_order : Map ℕ ℕ
first_order = (1, 5) ∷ (2, 6) ∷ []

abbrev second_order : Map ℕ ℕ
second_order = (2, 6) ∷ (1, 5) ∷ []

balances_root_unique_example : balances_root length first_order ≡ balances_root length second_order
balances_root_unique_example =
    balances_root_unique length first_order second_order (refl, (refl, tt)) (refl, (refl, tt))
      (λ i. ground arith)
