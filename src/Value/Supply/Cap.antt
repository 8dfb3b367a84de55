-- ===== src/Value/Supply/Cap.antt =====
-- The cap of src/value/supply.rs over any run of mints and burns.
use fluidic_node.Prelude.{
  ℕ, ◌+◌, ◌≤◌, ◌<◌, ◌≡◌, ◌⊎◌, true, false, List, [], ◌∷◌, arith, nat_eq, pair_eq, list_eq,
}
use fluidic_node.Value.Supply.{SupplyTracker, new, mint, burn, remaining, total_wave_supply}

pub data Call : Type 0 where
  mints : ℕ → Call
  burns : ℕ → Call

pub step : SupplyTracker → Call → SupplyTracker
step s (mints a) = (mint a s).0
step s (burns a) = burn a s

pub run : SupplyTracker → List Call → SupplyTracker
run s [] = s
run s (c ∷ cs) = run (step s c) cs

-- The cap is kept by every call, whatever its amount.
abbrev pub IsCapped : SupplyTracker → Type 0
IsCapped s = s.circulating ≤ total_wave_supply

mint-IsCapped : (a : ℕ) (s : SupplyTracker) → IsCapped s → IsCapped (mint a s).0
unfolding mint
mint-IsCapped a s h = ground arith

burn-IsCapped : (a : ℕ) (s : SupplyTracker) → IsCapped s → IsCapped (burn a s)
unfolding burn
burn-IsCapped a s h = ground arith

run-IsCapped : (s : SupplyTracker) (cs : List Call) → IsCapped s → IsCapped (run s cs)
unfolding run step
run-IsCapped s [] h = h
run-IsCapped s (mints a ∷ cs) h = run-IsCapped (mint a s).0 cs (mint-IsCapped a s h)
run-IsCapped s (burns a ∷ cs) h = run-IsCapped (burn a s) cs (burn-IsCapped a s h)

-- After any calls on a new tracker, the circulating supply and what `remaining` reports add up to
-- the cap.
run_cap : (cs : List Call) → (run new cs).circulating + remaining (run new cs) ≡ total_wave_supply
unfolding remaining
run_cap cs = omega (arith, run-IsCapped new cs (omega arith))

-- A mint succeeds exactly when the cap has room for its amount; it then adds the amount, and a
-- refused mint changes nothing.
pub mint_lem :
    (a : ℕ) (s : SupplyTracker)
    → IsCapped s
    → ((s.circulating + a ≤ total_wave_supply)
        × ((mint a s).1 ≡ true)
        × ((mint a s).0 ≡ record s { circulating = s.circulating + a }))
      ⊎ ((total_wave_supply < s.circulating + a) × (mint a s ≡ (s, false)))
unfolding mint
mint_lem a s h = ground arith
