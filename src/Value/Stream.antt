-- ===== src/Value/Stream.antt =====
-- `ValueStream` and `StreamState`, src/value/stream.rs.
pub mod Burn
mod Tests
use fluidic_node.Prelude.{
  ℕ, ◌-◌, ◌/◌, Bool, if◌then◌else◌, min, nat_beq, saturating_mul, saturating_sub, nat_eq, pair_eq,
  list_eq,
}
use fluidic_node.Value.Supply.{wave_precision}

pub record ValueStream : Type 0 where
  pub total : ℕ
  pub rate_per_tick : ℕ
  pub max_duration_ticks : ℕ

unfoldable pub new_stream : ℕ → ℕ → ℕ → ValueStream
new_stream wave_amount rate_per_second_wave max_duration_ticks = record {
  total = saturating_mul wave_amount wave_precision;
  rate_per_tick = saturating_mul rate_per_second_wave wave_precision;
  max_duration_ticks = max_duration_ticks;
}

unfoldable pub from_subunits : ℕ → ℕ → ℕ → ValueStream
from_subunits total rate_per_tick max_duration_ticks = record {
  total = total;
  rate_per_tick = rate_per_tick;
  max_duration_ticks = max_duration_ticks;
}

unfoldable pub burned_in : ℕ → ℕ → ℕ
burned_in elapsed_ticks rate_per_tick = saturating_mul rate_per_tick elapsed_ticks

unfoldable pub duration_ticks : ValueStream → ℕ
duration_ticks v =
    if nat_beq v.rate_per_tick 0 then 0 else min (v.total / v.rate_per_tick) v.max_duration_ticks

pub record StreamState : Type 0 where
  pub stream : ValueStream
  pub remaining : ℕ
  pub last_update_tick : ℕ
  pub start_tick : ℕ

unfoldable pub new : ValueStream → StreamState
new stream = record {
  stream = stream;
  remaining = stream.total;
  last_update_tick = 0;
  start_tick = 0;
}

-- `tick` returns the state that it wrote and the burned amount.
unfoldable pub tick : ℕ → StreamState → StreamState × ℕ
unfolding burned_in
tick now s =
    let elapsed_ticks = saturating_sub now s.last_update_tick in
    let burned = min (burned_in elapsed_ticks s.stream.rate_per_tick) s.remaining in
    (record s { remaining = s.remaining - burned; last_update_tick = now }, burned)

unfoldable pub is_exhausted : StreamState → Bool
is_exhausted s = nat_beq s.remaining 0
