-- ===== src/Value/Stream/Tests.antt =====
-- Runs and instances for src/value/stream.rs.
use fluidic_node.Prelude.{◌≡◌, refl, true, nat_eq, pair_eq, list_eq}
use fluidic_node.Value.Supply.{wave_precision}
use fluidic_node.Value.Stream.{StreamState, new, from_subunits, tick, is_exhausted}

exhausts : is_exhausted (tick 1 (new (from_subunits wave_precision wave_precision 10))).0 ≡ true
unfolding is_exhausted tick new from_subunits
exhausts = refl

abbrev state : StreamState
state = record {
  stream = record { total = 100; rate_per_tick = 7; max_duration_ticks = 10 };
  remaining = 93;
  last_update_tick = 1;
  start_tick = 0;
}
