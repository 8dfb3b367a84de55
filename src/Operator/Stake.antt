-- ===== src/Operator/Stake.antt =====
-- `StakeTable`, src/operator/stake.rs. The lock and the atomic counter make each call one step.
pub mod Slashing
pub mod Threshold
mod Tests
use fluidic_node.Prelude.{
  ℕ, ◌+◌, ◌*◌, ◌/◌, Bool, false, ◌&&◌, List, [], ◌∷◌, Option, none, some, if◌then◌else◌, leb,
  nat_beq, add_u64, sum_u128, nat_eq, pair_eq, list_eq,
}
use fluidic_node.Prelude.Map.{Map, lookup, update, unwrap_or, is_none, is_some}
use mathlib.Core.Option

-- `StakingConfig::default`
abbrev pub default_min_stake : ℕ
default_min_stake = 1000000000000000000

pub record OperatorEntry : Type 0 where
  pub stake : ℕ
  pub slash_nonce : Option ℕ

pub record StakeTable : Type 0 where
  pub min_stake : ℕ
  pub operators : Map ℕ OperatorEntry
  pub slash_counter : ℕ

unfoldable pub new : ℕ → StakeTable
new min_stake = record { min_stake = min_stake; operators = []; slash_counter = 0 }

-- the entry that `or_insert_with` makes
abbrev pub fresh_entry : OperatorEntry
fresh_entry = record { stake = 0; slash_nonce = none }

abbrev pub entry : ℕ → StakeTable → OperatorEntry
entry operator t = unwrap_or (lookup operator t.operators) fresh_entry

-- `stake` and `slash` return the table that they wrote and their result.
unfoldable pub stake : ℕ → ℕ → StakeTable → StakeTable × ℕ
stake operator amount t = (
  record t {
    operators = update operator fresh_entry (λ e. record e { stake = amount }) t.operators;
  },
  (entry operator t).stake,
)

unfoldable pub slash : ℕ → StakeTable → StakeTable × ℕ × ℕ
slash operator t = (
  record t {
    operators =
        update operator fresh_entry
          (λ e. record e { stake = 0; slash_nonce = some t.slash_counter }) t.operators;
    slash_counter = add_u64 t.slash_counter 1;
  },
  t.slash_counter,
  (entry operator t).stake,
)

unfoldable pub get_stake : ℕ → StakeTable → ℕ
get_stake operator t = unwrap_or (Option.map (λ e. e.stake) (lookup operator t.operators)) 0

abbrev pub is_staked_inner : ℕ → OperatorEntry → Bool
is_staked_inner min_stake e = leb min_stake e.stake && is_none e.slash_nonce

unfoldable pub is_staked : ℕ → StakeTable → Bool
is_staked operator t =
    unwrap_or (Option.map (is_staked_inner t.min_stake) (lookup operator t.operators)) false

unfoldable pub is_slashed : ℕ → StakeTable → Bool
is_slashed operator t =
    unwrap_or (Option.map (λ e. is_some e.slash_nonce) (lookup operator t.operators)) false

-- `iter().filter(..).map(..).collect()`
unfoldable pub staked : ℕ → Map ℕ OperatorEntry → List (ℕ × ℕ)
staked min_stake [] = []
staked min_stake ((k, e) ∷ m) =
    if is_staked_inner min_stake e then (k, e.stake) ∷ staked min_stake m else staked min_stake m

unfoldable pub staked_operators : StakeTable → List (ℕ × ℕ)
staked_operators t = staked t.min_stake t.operators

-- `values().filter(..).map(..)`
unfoldable pub unslashed_stakes : Map ℕ OperatorEntry → List ℕ
unslashed_stakes [] = []
unslashed_stakes ((k, e) ∷ m) =
    if is_none e.slash_nonce then e.stake ∷ unslashed_stakes m else unslashed_stakes m

unfoldable pub total_stake : StakeTable → ℕ
total_stake t = sum_u128 (unslashed_stakes t.operators)

unfoldable pub quorum_threshold : StakeTable → ℕ
quorum_threshold t =
    let total : ℕ = total_stake t in if nat_beq total 0 then 0 else total / 3 * 2 + 1
