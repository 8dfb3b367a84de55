-- ===== src/Operator/Stake/Threshold.antt =====
-- `quorum_threshold` of src/operator/stake.rs against the two-thirds rule it is there for.
use fluidic_node.Prelude.{◌*◌, ◌%◌, ◌≤◌, ◌<◌, ◌≢◌, ◌↔◌, arith, nat_eq, pair_eq, list_eq}
use fluidic_node.Operator.Stake.{StakeTable, total_stake, quorum_threshold}

-- With any stake at all, the threshold can be met, two disjoint groups of operators that both meet
-- it need more than the total unless the total is 2, and it is more than two thirds of the total
-- exactly when the total leaves no remainder 2 on division by 3.
pub quorum_threshold_lem :
    (t : StakeTable)
    → 0 < total_stake t
    → (quorum_threshold t ≤ total_stake t)
      × (total_stake t ≢ 2 → total_stake t < 2 * quorum_threshold t)
      × ((2 * total_stake t < 3 * quorum_threshold t) ↔ (total_stake t % 3 ≢ 2))
unfolding quorum_threshold
quorum_threshold_lem t h = ground arith
