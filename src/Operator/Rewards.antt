-- ===== src/Operator/Rewards.antt =====
-- `RewardPool`, src/operator/rewards.rs.
pub mod Payout
pub mod Shares
mod Tests
use fluidic_node.Prelude.{
  ℕ, ◌/◌, List, [], ◌∷◌, if◌then◌else◌, ltb, nat_beq, add_u128, saturating_mul, sum_u128, map,
  nat_eq, pair_eq, list_eq,
}
use fluidic_node.Prelude.Map.{Map, lookup, update, erase, unwrap_or}
use fluidic_node.Operator.Stake.{StakeTable, staked_operators}

-- `DEFAULT_DEX_DOMAIN` of src/crypto/phase_shift.rs, its 32 bytes read from the left
abbrev pub default_dex_domain : ℕ
default_dex_domain = 0x4445585f574156455f5553444300000000000000000000000000000000000000

abbrev pub operator_reward_basis_points : ℕ
operator_reward_basis_points = 5000

abbrev pub lp_reward_basis_points : ℕ
lp_reward_basis_points = 5000

pub record RewardPool : Type 0 where
  pub rewards : Map ℕ ℕ
  pub lp_rewards : Map ℕ ℕ

unfoldable pub new : RewardPool
new = record { rewards = []; lp_rewards = [] }

-- `*entry(k).or_insert(0) += amount`
abbrev pub accrue : ℕ → ℕ → Map ℕ ℕ → Map ℕ ℕ
accrue k amount m = update k 0 (λ x. add_u128 x amount) m

abbrev pub share_of : ℕ → ℕ → ℕ → ℕ
share_of reward_amount total_stake stake = saturating_mul reward_amount stake / total_stake

-- The `for` over the staked operators.
unfoldable pub pay_operators : ℕ → ℕ → List (ℕ × ℕ) → Map ℕ ℕ → Map ℕ ℕ
pay_operators reward_amount total_stake [] m = m
pay_operators reward_amount total_stake ((operator, stake) ∷ rest) m =
    let share : ℕ = share_of reward_amount total_stake stake in
    pay_operators reward_amount total_stake rest
      (if ltb 0 share then accrue operator share m else m)

unfoldable pub pay_lp : ℕ → RewardPool → RewardPool
pay_lp burned p =
    let lp_amount : ℕ = saturating_mul burned lp_reward_basis_points / 10000 in
    if ltb 0 lp_amount
    then record p { lp_rewards = accrue default_dex_domain lp_amount p.lp_rewards }
    else p

unfoldable pub distribute : ℕ → StakeTable → RewardPool → RewardPool
distribute burned table p =
    if nat_beq burned 0
    then p
    else let p' = pay_lp burned p in
      let reward_amount : ℕ = saturating_mul burned operator_reward_basis_points / 10000 in
      if nat_beq reward_amount 0
      then p'
      else let staked = staked_operators table in
        let total_stake : ℕ = sum_u128 (map (λ e. e.1) staked) in
        if nat_beq total_stake 0
        then p'
        else record p' { rewards = pay_operators reward_amount total_stake staked p'.rewards }

unfoldable pub balance : ℕ → RewardPool → ℕ
balance operator p = unwrap_or (lookup operator p.rewards) 0

-- `claim` and `claim_lp_reward` return the pool that they wrote and the amount.
unfoldable pub claim : ℕ → RewardPool → RewardPool × ℕ
claim operator p =
    (record p { rewards = erase operator p.rewards }, unwrap_or (lookup operator p.rewards) 0)

unfoldable pub lp_reward_balance : ℕ → RewardPool → ℕ
lp_reward_balance pool_id p = unwrap_or (lookup pool_id p.lp_rewards) 0

unfoldable pub claim_lp_reward : ℕ → RewardPool → RewardPool × ℕ
claim_lp_reward pool_id p = (
  record p { lp_rewards = erase pool_id p.lp_rewards },
  unwrap_or (lookup pool_id p.lp_rewards) 0,
)

unfoldable pub distribute_fees : ℕ → StakeTable → RewardPool → RewardPool
distribute_fees fees table p = distribute fees table p
