-- ===== src/Value/Supply.antt =====
-- `SupplyTracker`, src/value/supply.rs. A mutex guards each counter: a call is one step.
pub mod Cap
mod Tests
use fluidic_node.Prelude.{
  ℕ, ◌*◌, Bool, true, false, ltb, nat_beq, if◌then◌else◌, add_u128, saturating_add, saturating_sub,
  nat_eq, pair_eq, list_eq,
}

-- `WAVE_PRECISION` of src/field/wave_field.rs
abbrev pub wave_precision : ℕ
wave_precision = 1000000000000

abbrev pub total_wave_supply : ℕ
total_wave_supply = 1000000000 * wave_precision

pub record SupplyTracker : Type 0 where
  pub circulating : ℕ
  pub burned : ℕ

abbrev pub new : SupplyTracker
new = record { circulating = 0; burned = 0 }

unfoldable pub mint : ℕ → SupplyTracker → SupplyTracker × Bool
mint amount s =
    if nat_beq amount 0
    then (s, true)
    else if ltb total_wave_supply (saturating_add s.circulating amount)
    then (s, false)
    else (record s { circulating = add_u128 s.circulating amount }, true)

unfoldable pub burn : ℕ → SupplyTracker → SupplyTracker
burn amount s = if nat_beq amount 0 then s else record s {
  circulating = saturating_sub s.circulating amount;
  burned = add_u128 s.burned amount;
}

unfoldable pub remaining : SupplyTracker → ℕ
remaining s = saturating_sub total_wave_supply s.circulating
