-- ===== src/Field/WaveField/Tests.antt =====
-- Runs and instances for src/field/wave_field.rs.
use fluidic_node.Prelude.{◌+◌, ◌≡◌, false, [], ◌∷◌, arith, nat_eq}
use fluidic_node.Field.WaveField.{WaveField, Balance, new, zero_balance, apply_metabolic_decay}
use fluidic_node.Field.WaveField.Decay.{held, apply_metabolic_decay-conserves}

abbrev foreign : Balance
foreign = record zero_balance { units = 70; decays = false }

abbrev field : WaveField
field = record (new 4) {
  accounts = (1, record zero_balance { units = 1000000 }) ∷ (2, foreign) ∷ [];
  pools = (9, record zero_balance { units = 500 }) ∷ [];
}

apply_metabolic_decay-conserves_example :
    let (f', burned) = apply_metabolic_decay 1 20 (λ _. false) field in
    held f'.accounts + held f'.pools + burned ≡ held field.accounts + held field.pools
apply_metabolic_decay-conserves_example =
    apply_metabolic_decay-conserves 1 20 (λ _. false) field (omega arith) (omega arith)
