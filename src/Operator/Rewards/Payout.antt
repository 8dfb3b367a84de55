-- ===== src/Operator/Rewards/Payout.antt =====
-- What src/operator/rewards.rs pays out of an amount in all.
use native.Mathlib.Nat.{div-mul-le_self}
use fluidic_node.Prelude.{
  ℕ, ◌+◌, ◌*◌, ◌/◌, ◌≤◌, ◌<◌, ◌≡◌, arith, List, [], ◌∷◌, map, u128_mod, sum, sum_u128_exact,
  saturating_mul, ltb, Bool-cases, inl, inr, add_u128, nat_eq, pair_eq, list_eq,
}
use fluidic_node.Prelude.Map.{
  Map, lookup, sum_by, sum_by-insert, amount, amount-le-sum_by, unwrap_or,
}
use fluidic_node.Operator.Stake.{StakeTable, staked_operators}
use fluidic_node.Operator.Rewards.{
  RewardPool, accrue, share_of, pay_operators, pay_lp, distribute, default_dex_domain,
}

-- The value in a table of rewards.
abbrev pub held : Map ℕ ℕ → ℕ
held m = sum_by (λ x. x) m

abbrev pub owed : RewardPool → ℕ
owed p = held p.rewards + held p.lp_rewards

held-accrue : (k a : ℕ) (m : Map ℕ ℕ) → held m + a < u128_mod → held (accrue k a m) ≡ held m + a
held-accrue k a m h =
    let paid : ℕ = unwrap_or (lookup k m) 0 in
    let same : paid ≡ amount (λ x. x) (lookup k m) = ground arith in
    omega (arith, same, amount-le-sum_by (λ x. x) k m, sum_by-insert (λ x. x) k (add_u128 paid a) m)

shares : ℕ → ℕ → List (ℕ × ℕ) → ℕ
shares r t [] = 0
shares r t (e ∷ es) = share_of r t e.1 + shares r t es

-- The rounded shares of an amount in proportion to the stakes add up to at most the amount.
shares-mul-le : (r t : ℕ) (es : List (ℕ × ℕ)) → shares r t es * t ≤ r * sum (map (λ e. e.1) es)
unfolding shares
shares-mul-le r t [] = grind arith
shares-mul-le r t ((k, s) ∷ es) =
    let p : share_of r t s * t ≤ saturating_mul r s = div-mul-le_self (saturating_mul r s) t in
    let q : saturating_mul r s ≤ r * s = omega arith in grind (arith, shares-mul-le r t es)

held-pay_operators :
    (r t : ℕ) (es : List (ℕ × ℕ)) (m : Map ℕ ℕ)
    → held m + shares r t es < u128_mod
    → held (pay_operators r t es m) ≡ held m + shares r t es
unfolding shares pay_operators
held-pay_operators r t [] m h = omega arith
held-pay_operators r t ((k, s) ∷ es) m h = elim (Bool-cases (ltb 0 (share_of r t s))) [
  | inl paid ↦
      let e : held (accrue k (share_of r t s) m) ≡ held m + share_of r t s =
        held-accrue k (share_of r t s) m (omega arith) in
      rw paid (
        omega
          (arith, e, held-pay_operators r t es (accrue k (share_of r t s) m) (omega (arith, e))))
  | inr none_left ↦
      let z : share_of r t s ≡ 0 = ground arith in
      rw none_left (omega (arith, z, held-pay_operators r t es m (omega arith)))
]

shares-le :
    (r : ℕ) (es : List (ℕ × ℕ))
    → 0 < sum (map (λ e. e.1) es)
    → shares r (sum (map (λ e. e.1) es)) es ≤ r
shares-le r es h =
    let t : ℕ = sum (map (λ e. e.1) es) in
    let p : shares r t es * t ≤ r * t = shares-mul-le r t es in le_of_mul t h p
  where
    le_of_mul : {a b : ℕ} (t : ℕ) → 0 < t → a * t ≤ b * t → a ≤ b
    le_of_mul t h p = grind arith

-- the operators' and the providers' part of an amount
abbrev pub part : ℕ → ℕ
part burned = saturating_mul burned 5000 / 10000

pay_lp_lem :
    (burned : ℕ) (p : RewardPool)
    → held p.lp_rewards + burned < u128_mod
    → (held (pay_lp burned p).lp_rewards ≡ held p.lp_rewards + part burned)
      × ((pay_lp burned p).rewards ≡ p.rewards)
unfolding pay_lp
pay_lp_lem burned p h = ground (arith, held-accrue default_dex_domain (part burned) p.lp_rewards)

distribute_parts :
    (burned : ℕ) (table : StakeTable) (p : RewardPool)
    → sum (map (λ e. e.1) (staked_operators table)) < u128_mod
    → owed p + burned < u128_mod
    → let p' = distribute burned table p in
      (held p'.lp_rewards ≡ held p.lp_rewards + part burned)
      × (held p.rewards ≤ held p'.rewards)
      × (held p'.rewards ≤ held p.rewards + part burned)
      × (owed p' ≤ owed p + burned)
unfolding distribute
distribute_parts burned table p hs hp =
    let es : List (ℕ × ℕ) = staked_operators table in
    let t : ℕ = sum (map (λ e. e.1) es) in
    let lp = pay_lp_lem burned p (omega arith) in
    ground (
      arith,
      lp,
      sum_u128_exact (map (λ e. e.1) es) hs,
      shares-le (part burned) es,
      held-pay_operators (part burned) t es p.rewards,
    )

-- what the code takes for half of an amount is that, unless the product saturates
pub part-half : (burned : ℕ) → burned * 5000 < u128_mod → part burned ≡ burned / 2
part-half burned h = omega arith

-- While neither a counter nor the amount times 5000 passes 128 bits, a distribution credits the
-- providers with half of the amount, rounded down, and the operators with at most that half: never
-- more than the amount in all.
pub distribute_bounds :
    (burned : ℕ) (table : StakeTable) (p : RewardPool)
    → sum (map (λ e. e.1) (staked_operators table)) < u128_mod
    → owed p + burned < u128_mod
    → burned * 5000 < u128_mod
    → let p' = distribute burned table p in
      (held p'.lp_rewards ≡ held p.lp_rewards + burned / 2)
      × (held p.rewards ≤ held p'.rewards)
      × (held p'.rewards ≤ held p.rewards + burned / 2)
      × (owed p' ≤ owed p + burned)
distribute_bounds burned table p hs hp hb =
    rw (← part-half burned hb) (distribute_parts burned table p hs hp)
