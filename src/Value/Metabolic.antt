-- ===== src/Value/Metabolic.antt =====
-- The decay engine, src/value/metabolic.rs. The stream table is a map; the mutex around the total
-- makes each call one step.
pub mod Pow
pub mod Decay
pub mod Streams
mod Tests
use fluidic_node.Prelude.{
  ℕ, zero, suc, ◌-◌, ◌/◌, ◌%◌, Bool, ◌||◌, [], ◌∷◌, ltb, nat_beq, if◌then◌else◌, min, add_u128,
  saturating_add, saturating_mul, saturating_sub, length, nat_eq, pair_eq, list_eq,
}
use fluidic_node.Prelude.Map.{Map, insert}

abbrev pub basis_points_denominator : ℕ
basis_points_denominator = 10000

abbrev pub decay_denominator : ℕ
decay_denominator = 1000000

abbrev pub default_dex_lambda_ppm : ℕ
default_dex_lambda_ppm = 20

abbrev pub metabolic_idle_grace_ticks : ℕ
metabolic_idle_grace_ticks = 14400

abbrev pub metabolic_burn_bp : ℕ
metabolic_burn_bp = 2500

-- The `while exp > 0` of `pow`, with a bound on the rounds.
unfoldable pub pow_loop : ℕ → ℕ → ℕ → ℕ → ℕ
pow_loop zero base exp acc = acc
pow_loop (suc rounds) base exp acc =
    let acc' : ℕ = if nat_beq (exp % 2) 1 then saturating_mul acc base else acc in
    let exp' : ℕ = exp / 2 in
    let base' : ℕ = if ltb 0 exp' then saturating_mul base base else base in
    let rest : ℕ = pow_loop rounds base' exp' acc' in if ltb 0 exp then rest else acc

-- An exponent of 64 bits is halved at most 64 times.
unfoldable pub pow : ℕ → ℕ → ℕ
pow base exp = pow_loop 64 base exp 1

unfoldable pub decayed_balance : ℕ → ℕ → ℕ → ℕ
decayed_balance balance rate_ppm elapsed =
    if nat_beq balance 0 || nat_beq elapsed 0
    then balance
    else let retain : ℕ = decay_denominator - min rate_ppm (decay_denominator - 1) in
      saturating_mul balance (pow retain elapsed) / pow decay_denominator elapsed

pub record MetabolicStream : Type 0 where
  pub id : ℕ
  pub owner : ℕ
  pub initial_balance : ℕ
  pub created_tick : ℕ
  pub rate_ppm : ℕ
  pub remaining : ℕ
  pub last_update_tick : ℕ

unfoldable pub new_at : ℕ → ℕ → ℕ → ℕ → ℕ → MetabolicStream
new_at id owner initial_balance rate_ppm created_tick = record {
  id = id;
  owner = owner;
  initial_balance = initial_balance;
  created_tick = created_tick;
  rate_ppm = min rate_ppm (decay_denominator - 1);
  remaining = initial_balance;
  last_update_tick = created_tick;
}

unfoldable pub remaining_at : MetabolicStream → ℕ → ℕ
remaining_at s tick =
    decayed_balance s.initial_balance s.rate_ppm (saturating_sub tick s.created_tick)

-- `process` returns the stream that it wrote, the burned value and the flag.
unfoldable pub process : ℕ → MetabolicStream → MetabolicStream × ℕ × Bool
process tick s =
    let new_remaining = min (remaining_at s tick) s.remaining in
    let burned = saturating_sub s.remaining new_remaining in
    (
      record s { remaining = new_remaining; last_update_tick = tick },
      burned,
      nat_beq new_remaining 0,
    )

pub record MetabolicDecayEngine : Type 0 where
  pub streams : Map ℕ MetabolicStream
  pub total_burned : ℕ

unfoldable pub add_stream : MetabolicStream → MetabolicDecayEngine → MetabolicDecayEngine
add_stream s e = record e { streams = insert s.id s e.streams }

-- The closure of `retain`, over the streams and the running `tick_burn`.
unfoldable pub retain_streams : ℕ → Map ℕ MetabolicStream → ℕ → Map ℕ MetabolicStream × ℕ
retain_streams tick [] tick_burn = ([], tick_burn)
retain_streams tick ((id, s) ∷ m) tick_burn =
    let (s', burned, exhausted) = process tick s in
    let (kept, total) = retain_streams tick m (saturating_add tick_burn burned) in
    ((if exhausted then kept else (id, s') ∷ kept), total)

unfoldable pub process_metabolic_degradation : ℕ → MetabolicDecayEngine → MetabolicDecayEngine × ℕ
process_metabolic_degradation tick e =
    let (kept, tick_burn) = retain_streams tick e.streams 0 in
    (record { streams = kept; total_burned = add_u128 e.total_burned tick_burn }, tick_burn)

unfoldable pub active_stream_count : MetabolicDecayEngine → ℕ
active_stream_count e = length e.streams

unfoldable pub record_burn : ℕ → MetabolicDecayEngine → MetabolicDecayEngine
record_burn amount e = record e { total_burned = add_u128 e.total_burned amount }
