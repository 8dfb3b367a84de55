-- ===== src/Operator/Rewards/Tests.antt =====
-- Runs and instances for src/operator/rewards.rs.
use fluidic_node.Prelude.{
  ◌+◌, ◌/◌, ◌≤◌, ◌≡◌, refl, [], ◌∷◌, none, arith, sum, map, nat_eq, pair_eq, list_eq,
}
use fluidic_node.Operator.Stake.{StakeTable, staked, staked_operators, is_staked, get_stake}
use fluidic_node.Operator.Rewards.{RewardPool, distribute, balance, pay_lp, pay_operators}
use fluidic_node.Operator.Rewards.Payout.{owed, held, distribute_bounds}
use fluidic_node.Operator.Rewards.Shares.{fair_share, balance-distribute}

abbrev table : StakeTable
table = record {
  min_stake = 10;
  operators =
      (1, record { stake = 30; slash_nonce = none })
      ∷ (2, record { stake = 10; slash_nonce = none })
      ∷ (3, record { stake = 5; slash_nonce = none })
      ∷ [];
  slash_counter = 0;
}

abbrev pool : RewardPool
pool = record { rewards = (1, 7) ∷ []; lp_rewards = [] }

table_staked : sum (map (λ e. e.1) (staked_operators table)) ≡ 40
unfolding staked_operators staked
table_staked = refl

pool_paid : balance 1 (distribute 201 table pool) ≡ 82
unfolding balance distribute pay_lp pay_operators staked_operators staked
pool_paid = refl

fair_paid : fair_share 201 1 table ≡ 75
unfolding is_staked get_stake staked_operators staked
fair_paid = refl

distribute_bounds_example :
    let p' = distribute 201 table pool in
    (held p'.lp_rewards ≡ held pool.lp_rewards + 201 / 2)
    × (held pool.rewards ≤ held p'.rewards)
    × (held p'.rewards ≤ held pool.rewards + 201 / 2)
    × (owed p' ≤ owed pool + 201)
distribute_bounds_example =
    distribute_bounds 201 table pool (omega (arith, table_staked)) (omega arith) (omega arith)

balance-distribute_example :
    balance 1 (distribute 201 table pool) ≡ balance 1 pool + fair_share 201 1 table
unfolding balance get_stake
balance-distribute_example =
    balance-distribute 201 1 table pool (refl, (refl, (refl, tt))) (omega arith)
      (omega (arith, table_staked)) (omega (arith, table_staked)) (omega arith) (omega arith)
      (omega (arith, fair_paid))
