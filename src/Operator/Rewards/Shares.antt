-- ===== src/Operator/Rewards/Shares.antt =====
-- Which operator of src/operator/rewards.rs gets which share, and what a claim pays.
use fluidic_node.Prelude.{
  ℕ, ◌+◌, ◌*◌, ◌/◌, ◌≤◌, ap, saturating_mul, ◌<◌, ◌≡◌, refl, arith, [], ◌∷◌, map, u128_mod, sum,
  sum_u128_exact, if◌then◌else◌, ltb, nat_beq, Bool-cases, inl, inr, add_u128, ◌∙◌, Option-cases,
  nat_eq, pair_eq, list_eq,
}
use fluidic_node.Prelude.Map.{
  Map, lookup, amount, lookup-insert, IsMap, unwrap_or, sum_by-erase, lookup-erase_self,
}
use fluidic_node.Operator.Stake.{
  StakeTable, OperatorEntry, staked, staked_operators, is_staked_inner, is_staked, get_stake,
}
use fluidic_node.Operator.Rewards.{
  RewardPool, accrue, share_of, pay_operators, pay_lp, distribute, claim, balance,
}
use fluidic_node.Operator.Rewards.Payout.{part, part-half, owed}

read : ℕ → Map ℕ ℕ → ℕ
read k m = unwrap_or (lookup k m) 0

read-credit :
    (j k a : ℕ) (m : Map ℕ ℕ)
    → read j m < u128_mod
    → read j (if ltb 0 a then accrue k a m else m)
      ≡ (if nat_beq k j then add_u128 (read j m) a else read j m)
unfolding read
read-credit j k a m h = ground (arith, lookup-insert j k (add_u128 (unwrap_or (lookup k m) 0) a) m)

-- what an entry of the stake table earns
abbrev earned : ℕ → ℕ → ℕ → OperatorEntry → ℕ
earned min_stake r t e = if is_staked_inner min_stake e then share_of r t e.stake else 0

read-pay_operators :
    (min_stake r t op : ℕ) (ops : Map ℕ OperatorEntry) (m : Map ℕ ℕ)
    → IsMap ops
    → read op m + amount (earned min_stake r t) (lookup op ops) < u128_mod
    → read op (pay_operators r t (staked min_stake ops) m)
      ≡ read op m + amount (earned min_stake r t) (lookup op ops)
unfolding pay_operators staked
read-pay_operators min_stake r t op [] m u h = omega arith
read-pay_operators min_stake r t op ((k, e) ∷ ops) m u h =
    elim (Bool-cases (is_staked_inner min_stake e)) [
      | inr out ↦ rw out (ground (arith, u.0, read-pay_operators min_stake r t op ops m u.1))
      | inl active ↦
          let share : ℕ = share_of r t e.stake in
          let m' : Map ℕ ℕ = if ltb 0 share then accrue k share m else m in
          let c = read-credit op k share m (omega arith) in
          let ih = read-pay_operators min_stake r t op ops m' u.1 in
          elim (Bool-cases (nat_beq k op)) [
            | inl own ↦
                let same : k ≡ op = ground arith in
                let z : amount (earned min_stake r t) (lookup op ops) ≡ 0 = rw (← same, u.0) refl in
                let h' : read op m + share < u128_mod = rw (own, active) at h in
                let c' : read op m' ≡ add_u128 (read op m) share = rw own at c in
                rw (active, own, active) (ih (omega (arith, c', z)) ∙ omega (arith, c', z))
            | inr other ↦
                let h' : read op m + amount (earned min_stake r t) (lookup op ops) < u128_mod =
                  rw other at h in
                let c' : read op m' ≡ read op m = rw other at c in
                rw (active, other) (ih (omega (arith, c')) ∙ omega (arith, c'))
          ]
    ]

rewards-pay_lp : (burned : ℕ) (p : RewardPool) → (pay_lp burned p).rewards ≡ p.rewards
unfolding pay_lp
rewards-pay_lp burned p = ground arith

-- the share that the stake table gives an operator
abbrev due : ℕ → ℕ → StakeTable → ℕ
due burned op table =
    if is_staked op table
    then share_of (part burned) (sum (map (λ e. e.1) (staked_operators table))) (get_stake op table)
    else 0

due-amount :
    (burned op : ℕ) (table : StakeTable)
    → due burned op table
      ≡ amount
          (earned table.min_stake (part burned) (sum (map (λ e. e.1) (staked_operators table))))
          (lookup op table.operators)
unfolding is_staked get_stake
due-amount burned op table = elim (Option-cases (lookup op table.operators)) [
  | inl gone ↦ rw gone
  | inr (e, there) ↦ rw there
]

distribute-rewards :
    (burned : ℕ) (table : StakeTable) (p : RewardPool)
    → let total : ℕ = sum (map (λ e. e.1) (staked_operators table)) in
      0 < part burned
      → 0 < total
      → total < u128_mod
      → (distribute burned table p).rewards
        ≡ pay_operators (part burned) total (staked table.min_stake table.operators) p.rewards
unfolding distribute staked_operators
distribute-rewards burned table p hb ht hm = ground (
  arith,
  sum_u128_exact (map (λ e. e.1) (staked table.min_stake table.operators)) hm,
  rewards-pay_lp burned p,
)

balance-distribute-due :
    (burned op : ℕ) (table : StakeTable) (p : RewardPool)
    → IsMap table.operators
    → 0 < part burned
    → 0 < sum (map (λ e. e.1) (staked_operators table))
    → sum (map (λ e. e.1) (staked_operators table)) < u128_mod
    → balance op p + due burned op table < u128_mod
    → balance op (distribute burned table p) ≡ balance op p + due burned op table
unfolding balance read
balance-distribute-due burned op table p u hb ht hm hs =
    let d = due-amount burned op table in
    rw (distribute-rewards burned table p hb ht hm, d)
      (read-pay_operators table.min_stake (part burned)
        (sum (map (λ e. e.1) (staked_operators table))) op table.operators p.rewards u (rw d at hs))

-- An operator's part of half of an amount, in proportion to its stake among the staked and rounded
-- down; nothing for an operator that is not staked.
abbrev pub fair_share : ℕ → ℕ → StakeTable → ℕ
fair_share burned op table =
    if is_staked op table
    then burned / 2 * get_stake op table / sum (map (λ e. e.1) (staked_operators table))
    else 0

due-fair_share :
    (burned op : ℕ) (table : StakeTable)
    → burned * 5000 < u128_mod
    → burned / 2 * get_stake op table < u128_mod
    → due burned op table ≡ fair_share burned op table
due-fair_share burned op table hb hs =
    let exact : saturating_mul (burned / 2) (get_stake op table) ≡ burned / 2 * get_stake op table =
      omega arith in
    rw (part-half burned hb, exact) refl

-- A distribution of at least 2 over a positive staked total adds to each operator's balance half of
-- the amount times its stake over the total, rounded down, and nothing to an operator that is not
-- staked. The table lists each operator once, and the amount times 5000, its half times the
-- operator's stake, the total and the new balance fit 128 bits.
pub balance-distribute :
    (burned op : ℕ) (table : StakeTable) (p : RewardPool)
    → IsMap table.operators
    → 2 ≤ burned
    → 0 < sum (map (λ e. e.1) (staked_operators table))
    → sum (map (λ e. e.1) (staked_operators table)) < u128_mod
    → burned * 5000 < u128_mod
    → burned / 2 * get_stake op table < u128_mod
    → balance op p + fair_share burned op table < u128_mod
    → balance op (distribute burned table p) ≡ balance op p + fair_share burned op table
balance-distribute burned op table p u two ht hm hb hs room =
    let e : due burned op table ≡ fair_share burned op table =
      due-fair_share burned op table hb hs in
    let half : part burned ≡ burned / 2 = part-half burned hb in
    balance-distribute-due burned op table p u (omega (arith, half)) ht hm (omega (arith, e))
    ∙ ap (λ x. balance op p + x) e

-- A claim returns the balance and leaves none: what the pool owes falls by what it pays, and a
-- second claim pays nothing.
pub claim_once :
    (op : ℕ) (p : RewardPool)
    → IsMap p.rewards
    → let (p', paid) = claim op p in
      (paid ≡ balance op p)
      × (owed p' + paid ≡ owed p)
      × (balance op p' ≡ 0)
      × ((claim op p').1 ≡ 0)
unfolding claim balance
claim_once op p u =
    let gone = lookup-erase_self op p.rewards u in
    (refl, ground (arith, sum_by-erase (λ x. x) op p.rewards), rw gone refl, rw gone refl)
