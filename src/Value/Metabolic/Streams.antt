-- ===== src/Value/Metabolic/Streams.antt =====
-- The streams of src/value/metabolic.rs and the engine's pass over them.
use fluidic_node.Prelude.{
  ℕ, ◌+◌, ◌≤◌, ◌<◌, ◌≡◌, refl, arith, u128_max, u64_mod, [], ◌∷◌, saturating_add, saturating_sub,
  nat_beq, All, nat_eq, pair_eq, list_eq,
}
use fluidic_node.Prelude.Map.{Map, sum_by}
use fluidic_node.Value.Metabolic.{
  MetabolicStream, MetabolicDecayEngine, remaining_at, process, retain_streams,
  process_metabolic_degradation,
}
use fluidic_node.Value.Metabolic.Decay.{decayed_balance-le}

-- One call of `process` at a tick burns exactly what the stream loses, leaves no more than the
-- curve allows, reports exhaustion when nothing is left, and burns nothing when it is repeated at
-- the same tick.
pub process_conserves :
    (tick : ℕ) (s : MetabolicStream)
    → let (s', burned, exhausted) = process tick s in
      (burned + s'.remaining ≡ s.remaining)
      × (s'.remaining ≤ remaining_at s tick)
      × (exhausted ≡ nat_beq s'.remaining 0)
      × ((process tick s').1 ≡ 0)
unfolding process remaining_at
process_conserves tick s = (omega arith, omega arith, refl, omega arith)

-- What a stream of the map holds.
abbrev pub left : MetabolicStream → ℕ
left s = s.remaining

abbrev AllLive : Map ℕ MetabolicStream → Type 0
AllLive = All (λ e. 0 < left e.1)

retain_streams_lem :
    (tick acc : ℕ) (m : Map ℕ MetabolicStream)
    → acc + sum_by left m ≤ u128_max
    → let (kept, total) = retain_streams tick m acc in
      (total + sum_by left kept ≡ acc + sum_by left m) × AllLive kept
unfolding retain_streams
retain_streams_lem tick acc [] h = (refl, tt)
retain_streams_lem tick acc ((id, s) ∷ m) h =
    let (s', burned, exhausted) = process tick s in
    let p = process_conserves tick s in
    let ih = retain_streams_lem tick (saturating_add acc burned) m (omega arith) in ground arith

-- The value that the engine holds and has burned.
abbrev pub accounted : MetabolicDecayEngine → ℕ
accounted e = e.total_burned + sum_by left e.streams

-- While the engine's total fits 128 bits, a pass moves value from the streams to the burned total
-- and loses none, returns the part it moved, and keeps no exhausted stream.
process_metabolic_degradation_conserves :
    (tick : ℕ) (e : MetabolicDecayEngine)
    → accounted e ≤ u128_max
    → let (e', burned) = process_metabolic_degradation tick e in
      (accounted e' ≡ accounted e)
      × (e'.total_burned ≡ e.total_burned + burned)
      × AllLive e'.streams
unfolding process_metabolic_degradation
process_metabolic_degradation_conserves tick e h =
    let p = retain_streams_lem tick 0 e.streams (omega arith) in (omega arith, omega arith, p.1)

-- Over a tick of 64 bits a stream never holds more than it began with.
pub remaining_at-le :
    (s : MetabolicStream) (tick : ℕ) → tick < u64_mod → remaining_at s tick ≤ s.initial_balance
unfolding remaining_at
remaining_at-le s tick h =
    decayed_balance-le s.initial_balance s.rate_ppm (saturating_sub tick s.created_tick)
      (omega arith)
