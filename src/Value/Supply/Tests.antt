-- ===== src/Value/Supply/Tests.antt =====
-- Runs and instances for src/value/supply.rs.
use fluidic_node.Prelude.{◌≡◌, refl, false, nat_eq, pair_eq, list_eq}
use fluidic_node.Value.Supply.{SupplyTracker, mint, new, total_wave_supply}

cap_respected : (mint 1 (mint total_wave_supply new).0).1 ≡ false
unfolding mint
cap_respected = refl

abbrev held : SupplyTracker
held = record { circulating = 600; burned = 400 }
