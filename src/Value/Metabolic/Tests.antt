-- ===== src/Value/Metabolic/Tests.antt =====
-- Runs and instances for src/value/metabolic.rs.
use fluidic_node.Prelude.{◌*◌, ◌/◌, ◌^◌, ◌≡◌, refl, [], ◌∷◌, arith, nat_eq, pair_eq, list_eq}
use fluidic_node.Value.Metabolic.{
  pow, pow_loop, decayed_balance, decay_denominator, process, remaining_at, MetabolicStream,
  MetabolicDecayEngine, process_metabolic_degradation, retain_streams,
}
use fluidic_node.Value.Metabolic.Decay.{retained, decayed_balance_exact, decayed_balance_collapse}

pow_small : pow 9999 2 ≡ 99980001
unfolding pow pow_loop
pow_small = refl

-- One percent a tick, three ticks.
decayed_three : decayed_balance 1000000 10000 3 ≡ 970299
unfolding decayed_balance pow pow_loop
decayed_three = refl

-- At the default rate a billion tokens that are left alone for seven ticks are one sub-unit.
collapse_at_seven : decayed_balance 1000000000000000000000 20 7 ≡ 1
unfolding decayed_balance pow pow_loop
collapse_at_seven = refl

decayed_balance_exact_example :
    decayed_balance 1000000 10000 5 ≡ 1000000 * retained 10000 ^ 5 / decay_denominator ^ 5
decayed_balance_exact_example =
    decayed_balance_exact 1000000 10000 5 (omega arith) (omega arith) (omega arith)

decayed_balance_collapse_example : decayed_balance 1000000000000000000000 20 7 ≡ 1
decayed_balance_collapse_example =
    decayed_balance_collapse 1000000000000000000000 20 7 (omega arith) (omega arith) (omega arith)

abbrev stream : MetabolicStream
stream = record {
  id = 3;
  owner = 9;
  initial_balance = 1000000;
  created_tick = 0;
  rate_ppm = 10000;
  remaining = 990000;
  last_update_tick = 1;
}

abbrev engine : MetabolicDecayEngine
engine = record {
  streams = (3, stream) ∷ (4, record stream { id = 4; remaining = 0 }) ∷ [];
  total_burned = 10000;
}

engine_run : (process_metabolic_degradation 2 engine).1 ≡ 9900
unfolding process_metabolic_degradation retain_streams process remaining_at decayed_balance pow
    pow_loop
engine_run = refl
