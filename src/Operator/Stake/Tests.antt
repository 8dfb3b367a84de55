-- ===== src/Operator/Stake/Tests.antt =====
-- Runs and instances for src/operator/stake.rs.
use fluidic_node.Prelude.{
  ◌*◌, ◌%◌, ◌≤◌, ◌<◌, ◌≡◌, ◌≢◌, ◌↔◌, refl, true, false, List, [], ◌∷◌, none, some, arith, nat_eq,
  pair_eq, list_eq,
}
use fluidic_node.Operator.Stake.{
  StakeTable, is_staked, is_slashed, total_stake, quorum_threshold, unslashed_stakes,
}
use fluidic_node.Operator.Stake.Slashing.{Call, stakes, slashes, run, run-is_slashed}
use fluidic_node.Operator.Stake.Threshold.{quorum_threshold_lem}

abbrev calls : List Call
calls = stakes 1 50 ∷ slashes 2 ∷ stakes 2 90 ∷ []

abbrev table : StakeTable
table = record {
  min_stake = 10;
  operators =
      (1, record { stake = 30; slash_nonce = none })
      ∷ (2, record { stake = 20; slash_nonce = some 0 })
      ∷ [];
  slash_counter = 1;
}

table_total : total_stake table ≡ 30
unfolding total_stake unslashed_stakes
table_total = refl

table_slashed : is_slashed 2 table ≡ true
unfolding is_slashed
table_slashed = refl

run-is_slashed_example :
    (is_slashed 2 (run table calls) ≡ true) × (is_staked 2 (run table calls) ≡ false)
run-is_slashed_example = run-is_slashed 2 table calls table_slashed

quorum_threshold_lem_example :
    (quorum_threshold table ≤ total_stake table)
    × (total_stake table ≢ 2 → total_stake table < 2 * quorum_threshold table)
    × ((2 * total_stake table < 3 * quorum_threshold table) ↔ (total_stake table % 3 ≢ 2))
quorum_threshold_lem_example = quorum_threshold_lem table (omega (arith, table_total))
