-- ===== src/Value/Metabolic/Decay.antt =====
-- `decayed_balance` of src/value/metabolic.rs in closed form, and what saturation makes of it.
use native.Mathlib.Nat.{
  mul-le-mul, le_refl, le_trans, pow-le-pow_left, div-le_of_le-mul, mul_comm, min-eq_right,
  min-eq_left, pow-zero,
}
use fluidic_node.Prelude.{
  ℕ, ◌-◌, ◌*◌, ◌/◌, ◌^◌, ◌≤◌, ◌<◌, ◌≡◌, sym, ◌∙◌, ap, ap₂, ◌⊎◌, inl, inr, arith, min,
  saturating_mul, u128_max, u64_mod, nat_eq, pair_eq, list_eq,
}
use fluidic_node.Value.Metabolic.{pow, decayed_balance, decay_denominator}
use fluidic_node.Value.Metabolic.Pow.{pow-eq-min}

-- the retained fraction of a million, after the rate is capped
abbrev pub retained : ℕ → ℕ
retained rate = decay_denominator - min rate (decay_denominator - 1)

-- The shape of the code when neither the balance nor the time is 0.
decayed_cases :
    (b r t : ℕ)
    → (((b ≡ 0) ⊎ (t ≡ 0)) × (decayed_balance b r t ≡ b))
      ⊎ ((0 < b)
          × (0 < t)
          × (decayed_balance b r t
              ≡ saturating_mul b (pow (retained r) t) / pow decay_denominator t))
unfolding decayed_balance
decayed_cases b r t = ground arith

pow_mono : (a b t : ℕ) → a ≤ b → b ≤ u128_max → t < u64_mod → pow a t ≤ pow b t
pow_mono a b t h k ht =
    let p : pow a t ≡ min (a ^ t) u128_max = pow-eq-min a t (le_trans h k) ht in
    let q : pow b t ≡ min (b ^ t) u128_max = pow-eq-min b t k ht in
    let m : a ^ t ≤ b ^ t = pow-le-pow_left h t in omega (arith, p, q, m)

-- Decay never adds value: whatever saturates, the result is at most the balance.
pub decayed_balance-le : (b r t : ℕ) → t < u64_mod → decayed_balance b r t ≤ b
decayed_balance-le b r t ht = elim (decayed_cases b r t) [
  | inl (_, e) ↦ omega (arith, e)
  | inr (_, _, e) ↦
      let k : pow (retained r) t ≤ pow decay_denominator t =
        pow_mono (retained r) decay_denominator t (omega arith) (omega arith) ht in
      let m : b * pow (retained r) t ≤ b * pow decay_denominator t = mul-le-mul (le_refl b) k in
      rw e (
        div-le_of_le-mul (pow decay_denominator t)
          (rw (mul_comm (pow decay_denominator t) b) (omega (arith, m))))
]

-- While neither 1000000 ^ t nor b * q ^ t passes 128 bits, the result is the closed form
-- b * q ^ t / 1000000 ^ t, rounded down, where q is 1000000 less the rate, at least 1. The time t fits
-- 64 bits.
pub decayed_balance_exact :
    (b r t : ℕ)
    → t < u64_mod
    → decay_denominator ^ t ≤ u128_max
    → b * retained r ^ t ≤ u128_max
    → decayed_balance b r t ≡ b * retained r ^ t / decay_denominator ^ t
decayed_balance_exact b r t ht hd hn = elim (decayed_cases b r t) [
  | inl (inl zero_balance, e) ↦
      rw (e, zero_balance) (sym (zero_quotient (retained r ^ t) (decay_denominator ^ t)))
  | inl (inr zero_time, e) ↦
      rw (e, zero_time, pow-zero (retained r), pow-zero decay_denominator) (omega arith)
  | inr (hb, _, e) ↦
      let m : 1 * retained r ^ t ≤ b * retained r ^ t = mul-le-mul hb (le_refl (retained r ^ t)) in
      let p : pow (retained r) t ≡ retained r ^ t =
        pow-eq-min (retained r) t (omega arith) ht ∙ min-eq_left (omega (arith, m)) in
      let q : pow decay_denominator t ≡ decay_denominator ^ t =
        pow-eq-min decay_denominator t (omega arith) ht ∙ min-eq_left hd in
      e
      ∙ ap₂ (λ x y. saturating_mul b x / y) p q
      ∙ ap (λ x. x / decay_denominator ^ t) (min-eq_left hn)
]
  where
    zero_quotient : (x y : ℕ) → 0 * x / y ≡ 0
    zero_quotient x y = omega arith

-- Once the retained power reaches 2^128 - 1, every positive balance decays to 1, however large it
-- is; the time fits 64 bits.
pub decayed_balance_collapse :
    (b r t : ℕ) → 0 < b → t < u64_mod → u128_max ≤ retained r ^ t → decayed_balance b r t ≡ 1
decayed_balance_collapse b r t hb ht hn = elim (decayed_cases b r t) [
  | inl (inl zero_balance, _) ↦ absurd (omega arith)
  | inl (inr zero_time, _) ↦
      let k : u128_max ≤ 1 = rw (zero_time, pow-zero (retained r)) at hn in absurd (omega arith)
  | inr (_, _, e) ↦
      let le : retained r ^ t ≤ decay_denominator ^ t =
        pow-le-pow_left {n = retained r} {m = decay_denominator} (omega arith) t in
      let p : pow (retained r) t ≡ u128_max =
        pow-eq-min (retained r) t (omega arith) ht ∙ min-eq_right hn in
      let q : pow decay_denominator t ≡ u128_max =
        pow-eq-min decay_denominator t (omega arith) ht ∙ min-eq_right (le_trans hn le) in
      e ∙ ap₂ (λ x y. saturating_mul b x / y) p q ∙ omega arith
]
