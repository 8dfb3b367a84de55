-- ===== src/Value/Metabolic/Pow.antt =====
-- `pow` of src/value/metabolic.rs against the power itself.
use native.Mathlib.Nat.{
  mul_comm, mul_assoc, pow-suc, pow-zero, mul-le-mul, le_refl, min-eq_left, min-eq_right,
}
use native.Mathlib.Decide.{dec_lt}
use fluidic_node.Prelude.{
  ℕ, zero, suc, ◌*◌, ◌/◌, ◌%◌, ◌^◌, ◌≤◌, ◌<◌, ◌≡◌, refl, sym, ◌∙◌, ap, subst, inl, inr, arith, min,
  u128_max, u64_mod, ltb, nat_beq, if◌then◌else◌, Bool-cases, nat_eq, pair_eq, list_eq,
}
use fluidic_node.Prelude.Powers.{odd_part, pow_halve}
use fluidic_node.Value.Metabolic.{pow, pow_loop}

-- Capping the factors first does not change a capped product.
min_mul_cap_left : (a b m : ℕ) → m < a → min (m * b) m ≡ min (a * b) m
min_mul_cap_left a zero m h = grind arith
min_mul_cap_left a (suc b) m h =
    let p : m * suc b ≤ a * suc b = mul-le-mul (omega arith) (le_refl (suc b)) in
    let q : m * 1 ≤ m * suc b = mul-le-mul (le_refl m) (omega arith) in omega (arith, p, q)

pub min_mul_cap : (a b m : ℕ) → min (min a m * min b m) m ≡ min (a * b) m
min_mul_cap a b m = elim (dec_lt m a) [
  | yes p ↦ elim (dec_lt m b) [
    | yes q ↦
        rw (min-eq_right (lt→le p), min-eq_right (lt→le q))
          (min_mul_cap_left b m m q ∙ ap (λ x. min x m) (mul_comm b m) ∙ min_mul_cap_left a b m p)
    | no q ↦ rw (min-eq_right (lt→le p), min-eq_left (not-lt→le q)) (min_mul_cap_left a b m p)
  ]
  | no p ↦ elim (dec_lt m b) [
    | yes q ↦
        rw (min-eq_left (not-lt→le p), min-eq_right (lt→le q), mul_comm a m, mul_comm a b)
          (min_mul_cap_left b a m q)
    | no q ↦ rw (min-eq_left (not-lt→le p), min-eq_left (not-lt→le q))
  ]
]
  where
    lt→le : {x y : ℕ} → x < y → x ≤ y
    lt→le h = omega arith

    not-lt→le : {x y : ℕ} → ¬ (x < y) → y ≤ x
    not-lt→le h = omega arith

pow_loop_done : (rounds base acc : ℕ) → pow_loop rounds base 0 acc ≡ acc
unfolding pow_loop
pow_loop_done zero base acc = refl
pow_loop_done (suc rounds) base acc = refl

acc_step :
    (b e a m : ℕ)
    → (if nat_beq (e % 2) 1 then min (min a m * min b m) m else min a m) ≡ min (a * odd_part b e) m
acc_step b e a m = elim (Bool-cases (nat_beq (e % 2) 1)) [
  | inl odd ↦ rw odd (min_mul_cap a b m)
  | inr even ↦ rw even (ap (λ x. min x m) (sym (mul_one a)))
]
  where
    mul_one : (x : ℕ) → x * 1 ≡ x
    mul_one x = omega arith

halved_bound : (rounds e : ℕ) → e < 2 ^ suc rounds → e / 2 < 2 ^ rounds
halved_bound rounds e h = let k : e < 2 ^ rounds * 2 = rw (pow-suc 2 rounds) at h in omega arith

-- What the loop computes from capped numbers is the capped result.
pow_loop-cap :
    (rounds b exp a : ℕ)
    → exp < 2 ^ rounds
    → pow_loop rounds (min b u128_max) exp (min a u128_max) ≡ min (a * b ^ exp) u128_max
unfolding pow_loop
pow_loop-cap zero b exp a h =
    let e : exp ≡ 0 = omega arith in rw (e, pow-zero b) (ap (λ x. min x u128_max) (omega arith))
pow_loop-cap (suc rounds) b exp a h = elim (Bool-cases (ltb 0 exp)) [
  | inr done ↦
      let e : exp ≡ 0 = ground arith in rw (e, pow-zero b) (ap (λ x. min x u128_max) (omega arith))
  | inl more ↦
      let a' : ℕ = a * odd_part b exp in
      let regroup : a' * (b * b) ^ (exp / 2) ≡ a * b ^ exp =
        mul_assoc a (odd_part b exp) ((b * b) ^ (exp / 2))
        ∙ ap (λ x. a * x) (sym (pow_halve b exp)) in
      rw (more, acc_step b exp a u128_max, ← regroup)
        (elim (Bool-cases (ltb 0 (exp / 2))) [
          | inl go_on ↦
              rw (go_on, min_mul_cap b b u128_max)
                (pow_loop-cap rounds (b * b) (exp / 2) a' (halved_bound rounds exp h))
          | inr stop ↦
              let e : exp / 2 ≡ 0 = ground arith in
              rw (stop, e)
                (pow_loop_done rounds _ _
                  ∙ ap (λ x. min x u128_max) (rw (pow-zero (b * b)) (omega arith)))
        ])
]

-- For every exponent of 64 bits `pow` returns the power, capped at the largest u128.
pub pow-eq-min : (b exp : ℕ) → b ≤ u128_max → exp < u64_mod → pow b exp ≡ min (b ^ exp) u128_max
unfolding pow
pow-eq-min b exp hb he =
    subst (λ x. pow_loop 64 x exp 1 ≡ min (b ^ exp) u128_max) (min-eq_left hb)
      (pow_loop-cap 64 b exp 1 he ∙ ap (λ x. min x u128_max) (omega arith))
