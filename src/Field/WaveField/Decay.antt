-- ===== src/Field/WaveField/Decay.antt =====
-- What the decay of src/field/wave_field.rs burns, by what the balances lose.
use fluidic_node.Prelude.{
  ℕ, ◌+◌, ◌-◌, ◌<◌, ◌≡◌, ◌⊎◌, inl, inr, refl, Bool, true, false, some, if◌then◌else◌, nat_beq,
  nat_eq, arith, u128_mod, u64_mod, Bool-cases, [], ◌∷◌, saturating_add, none_ne_some,
}
use fluidic_node.Prelude.Map.{Map, sum_by, lookup}
use fluidic_node.Value.Metabolic.Decay.{decayed_balance-le}
use fluidic_node.Field.WaveField.{
  WaveField, Balance, decay_balance_in_place, decay_accounts, apply_metabolic_decay,
  account_balance,
}

abbrev pub held : Map ℕ Balance → ℕ
held m = sum_by (λ b. b.units) m

decay_balance_lem :
    (now rate_ppm : ℕ) (b : Balance)
    → now < u64_mod
    → let (b', burned) = decay_balance_in_place now rate_ppm b in
      (b'.units + burned ≡ b.units) × (b'.last_decay_tick ≡ now)
unfolding decay_balance_in_place
decay_balance_lem now rate_ppm b h =
    ground (arith, decayed_balance-le b.units rate_ppm (now - b.last_decay_tick))

decay_accounts-held :
    (now rate_ppm : ℕ) (immune : ℕ → Bool) (m : Map ℕ Balance) (acc : ℕ)
    → now < u64_mod
    → acc + held m < u128_mod
    → let (m', total) = decay_accounts now rate_ppm immune m acc in held m' + total ≡ acc + held m
unfolding decay_accounts
decay_accounts-held now rate_ppm immune [] acc h k = omega arith
decay_accounts-held now rate_ppm immune ((id, b) ∷ m) acc h k = elim (Bool-cases (immune id)) [
  | inl exempt ↦
      rw exempt (omega (arith, decay_accounts-held now rate_ppm immune m acc h (omega arith)))
  | inr exposed ↦
      let burned : ℕ = (decay_balance_in_place now rate_ppm b).1 in
      let p = decay_balance_lem now rate_ppm b h in
      rw exposed (
        omega (
          arith,
          p,
          decay_accounts-held now rate_ppm immune m (saturating_add acc burned) h
              (omega (arith, p)),
        ))
]

-- A decay returns exactly what the accounts and pools lose together, while their sum fits 128 bits.
pub apply_metabolic_decay-conserves :
    (now rate_ppm : ℕ) (immune : ℕ → Bool) (f : WaveField)
    → now < u64_mod
    → held f.accounts + held f.pools < u128_mod
    → let (f', burned) = apply_metabolic_decay now rate_ppm immune f in
      held f'.accounts + held f'.pools + burned ≡ held f.accounts + held f.pools
unfolding apply_metabolic_decay
apply_metabolic_decay-conserves now rate_ppm immune f h k =
    let a = decay_accounts-held now rate_ppm immune f.accounts 0 h (omega arith) in
    let burned : ℕ = (decay_accounts now rate_ppm immune f.accounts 0).1 in
    omega
      (arith, a, decay_accounts-held now rate_ppm (λ _. false) f.pools burned h (omega (arith, a)))

exempt-kept :
    (now rate_ppm id : ℕ) (immune : ℕ → Bool) (m : Map ℕ Balance) (acc : ℕ) (b : Balance)
    → lookup id m ≡ some b
    → (immune id ≡ true) ⊎ (b.decays ≡ false)
    → lookup id (decay_accounts now rate_ppm immune m acc).0
      ≡ some (record b { last_decay_tick = now })
unfolding decay_accounts decay_balance_in_place
exempt-kept now rate_ppm id immune [] acc b e x = absurd (none_ne_some e)
exempt-kept now rate_ppm id immune ((k, c) ∷ m) acc b e x = elim (Bool-cases (nat_beq k id)) [
  | inl own ↦ let same : k ≡ id = ground arith in ground arith
  | inr other ↦
      let burned : ℕ =
        (if immune k
          then (record c { last_decay_tick = now }, 0)
          else decay_balance_in_place now rate_ppm c).1 in
      let acc' : ℕ = if immune k then acc else saturating_add acc burned in
      let later = exempt-kept now rate_ppm id immune m acc' b (rw other at e) x in
      rw (decay_accounts, other) later
]

-- A decay leaves an account that is immune, or whose balance does not decay, as it was but for the
-- tick.
pub apply_metabolic_decay-exempt :
    (now rate_ppm id : ℕ) (immune : ℕ → Bool) (f : WaveField) (b : Balance)
    → lookup id f.accounts ≡ some b
    → (immune id ≡ true) ⊎ (b.decays ≡ false)
    → account_balance id (apply_metabolic_decay now rate_ppm immune f).0
      ≡ record b { last_decay_tick = now }
unfolding apply_metabolic_decay account_balance
apply_metabolic_decay-exempt now rate_ppm id immune f b e x =
    rw (exempt-kept now rate_ppm id immune f.accounts 0 b e x) refl
