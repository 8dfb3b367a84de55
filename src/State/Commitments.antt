-- ===== src/State/Commitments.antt =====
-- The commitments to the stake table and to the rewards: `root` of src/operator/stake.rs and of
-- src/operator/rewards.rs.
pub mod Unique
mod Tests
use fluidic_node.Prelude.{ℕ, List, [], ◌∷◌, ◌++◌, Option, none, some}
use fluidic_node.Prelude.Map.{Map}
use fluidic_node.Prelude.Bytes.{Bytes, ascii, id_bytes, to_be_bytes}
use fluidic_node.Operator.Stake.{OperatorEntry, StakeTable}
use fluidic_node.Operator.Rewards.{RewardPool}
use fluidic_node.State.Merkle.{Item, sort_items, root}

abbrev pub slash_flag : Option ℕ → ℕ
slash_flag none = 0
slash_flag (some nonce) = 1

unfoldable pub stake_items : Map ℕ OperatorEntry → List Item
stake_items [] = []
stake_items ((k, e) ∷ ops) =
    (id_bytes k, to_be_bytes 16 e.stake ++ (slash_flag e.slash_nonce ∷ [])) ∷ stake_items ops

-- `StakeTable::root`
unfoldable pub stake_root : (Bytes → ℕ) → StakeTable → ℕ
stake_root blake3 t = root blake3 (sort_items (stake_items t.operators))

unfoldable pub reward_items : Bytes → Map ℕ ℕ → List Item
reward_items prefix [] = []
reward_items prefix ((k, amount) ∷ rewards) =
    (prefix ++ id_bytes k, to_be_bytes 16 amount) ∷ reward_items prefix rewards

-- `RewardPool::root`
unfoldable pub reward_root : (Bytes → ℕ) → RewardPool → ℕ
reward_root blake3 p =
    root blake3 (sort_items (reward_items [] p.rewards ++ reward_items (ascii "lp:") p.lp_rewards))
