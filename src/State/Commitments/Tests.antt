-- ===== src/State/Commitments/Tests.antt =====
-- Instances for the commitment to the stake table of src/operator/stake.rs.
use fluidic_node.Prelude.{ℕ, ◌≡◌, refl, [], ◌∷◌, none, length, arith, nat_eq}
use fluidic_node.Operator.Stake.{OperatorEntry, StakeTable}
use fluidic_node.State.Commitments.{stake_root}
use fluidic_node.State.Commitments.Unique.{stake_root_unique}

abbrev locked : ℕ → OperatorEntry
locked amount = record { stake = amount; slash_nonce = none }

abbrev first_order : StakeTable
first_order = record {
  min_stake = 1;
  operators = (1, locked 5) ∷ (2, locked 6) ∷ [];
  slash_counter = 0;
}

abbrev second_order : StakeTable
second_order = record first_order { operators = (2, locked 6) ∷ (1, locked 5) ∷ [] }

stake_root_unique_example : stake_root length first_order ≡ stake_root length second_order
stake_root_unique_example =
    stake_root_unique length first_order second_order (refl, (refl, tt)) (refl, (refl, tt))
      (λ i. ground arith)
