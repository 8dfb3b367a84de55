-- ===== src/Value/Stream/Burn.antt =====
-- How much a stream of src/value/stream.rs has burned after any series of ticks.
use fluidic_node.Prelude.{
  ℕ, ◌+◌, ◌-◌, ◌*◌, ◌≤◌, ◌≡◌, arith, min, u128_max, List, [], ◌∷◌, nat_eq, pair_eq, list_eq,
}
use fluidic_node.Value.Stream.{StreamState, tick}

-- The ticks of a list, in order; the burned amounts are added up.
pub run : List ℕ → StreamState → StreamState × ℕ
run [] s = (s, 0)
run (t ∷ ts) s = let (s', burned) = tick t s in let (s'', rest) = run ts s' in (s'', burned + rest)

-- The times do not fall along the list, from a given one on.
abbrev pub IsRising : ℕ → List ℕ → Type 0
IsRising t [] = Unit
IsRising t (u ∷ us) = (t ≤ u) × IsRising u us

abbrev pub last : ℕ → List ℕ → ℕ
last t [] = t
last t (u ∷ us) = last u us

le-last : (t : ℕ) (us : List ℕ) → IsRising t us → t ≤ last t us
le-last t [] h = omega arith
le-last t (u ∷ us) h = omega (arith, le-last u us h.1)

-- What a run must leave and burn: the rate over the elapsed time, until nothing is left.
abbrev pub Burns : ℕ → StreamState → StreamState × ℕ → Type 0
Burns t s (s', burned) =
    (burned ≡ min (s.stream.rate_per_tick * (t - s.last_update_tick)) s.remaining)
    × (burned + s'.remaining ≡ s.remaining)

mul_split : (r a b c : ℕ) → a ≤ b → b ≤ c → r * (c - a) ≡ r * (b - a) + r * (c - b)
mul_split r a b c h k = grind arith

tick_lem : (t : ℕ) (s : StreamState) → s.remaining ≤ u128_max → Burns t s (tick t s)
unfolding tick
tick_lem t s h = (omega arith, omega arith)

-- However the time up to the last tick is cut into ticks, the stream burns its rate times the whole
-- time, or all that it holds, and what it burns it loses.
pub run-Burns :
    (ts : List ℕ) (s : StreamState)
    → s.remaining ≤ u128_max
    → IsRising s.last_update_tick ts
    → Burns (last s.last_update_tick ts) s (run ts s)
unfolding run tick
run-Burns [] s h up =
    let z : s.stream.rate_per_tick * (s.last_update_tick - s.last_update_tick) ≡ 0 = grind arith in
    (omega (arith, z), omega arith)
run-Burns (t ∷ ts) s h up =
    let s' : StreamState = (tick t s).0 in
    let p : Burns t s (tick t s) = tick_lem t s h in
    let ih : Burns (last t ts) s' (run ts s') = run-Burns ts s' (omega arith) up.1 in
    let split =
      mul_split s.stream.rate_per_tick s.last_update_tick t (last t ts) up.0 (le-last t ts up.1) in
    (omega (arith, split), omega arith)
