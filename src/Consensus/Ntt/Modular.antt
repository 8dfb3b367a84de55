-- ===== src/Consensus/Ntt/Modular.antt =====
-- The modular arithmetic of src/consensus/ntt.rs against that of the natural numbers.
use fluidic_node.Prelude.{
  ℕ, zero, suc, ◌*◌, ◌/◌, ◌%◌, ◌^◌, ◌<◌, ◌≡◌, ◌∙◌, sym, ap, refl, arith, nat_beq, if◌then◌else◌,
  Bool-cases, inl, inr,
}
use native.Mathlib.Nat.{mul_assoc, pow-suc, pow-zero, mod-eq_of_lt, mod-lt}
use fluidic_node.Prelude.Powers.{odd_part, pow_halve, mod-mul, mul-mod_factor, pow-mod}
use fluidic_node.Consensus.Ntt.{mod_pow, mod_pow_loop, mul_mod}

finished : (result base exp m : ℕ) → result < m → exp ≡ 0 → result ≡ result * base ^ exp % m
finished result base exp m h e =
    sym (rw (e, pow-zero base) (ap (λ x. x % m) (mul_one result) ∙ mod-eq_of_lt h))
  where
    mul_one : (x : ℕ) → x * 1 ≡ x
    mul_one x = omega arith

round :
    (result base exp m : ℕ)
    → result < m
    → (if nat_beq (exp % 2) 1 then result * base % m else result) ≡ result * odd_part base exp % m
round result base exp m h = elim (Bool-cases (nat_beq (exp % 2) 1)) [
  | inl odd ↦ rw odd refl
  | inr even ↦ rw even (sym (ap (λ x. x % m) (mul_one result) ∙ mod-eq_of_lt h))
]
  where
    mul_one : (x : ℕ) → x * 1 ≡ x
    mul_one x = omega arith

mod_pow_loop_lem :
    (fuel result base exp m : ℕ)
    → result < m
    → exp < 2 ^ fuel
    → mod_pow_loop fuel result base exp m ≡ result * base ^ exp % m
unfolding mod_pow_loop mul_mod
mod_pow_loop_lem zero result base exp m h e = finished result base exp m h (omega arith)
mod_pow_loop_lem (suc fuel) result base exp m h e = elim (Bool-cases (nat_beq exp 0)) [
  | inl spent ↦ rw spent (finished result base exp m h (ground arith))
  | inr left ↦
      let q : ℕ = exp / 2 in
      let x : ℕ = result * odd_part base exp in
      let half : q < 2 ^ fuel = halved fuel exp e in
      let pos : 0 < m = omega (arith, h) in
      let ih = mod_pow_loop_lem fuel (x % m) (base * base % m) q m (mod-lt x pos) half in
      rw (left, round result base exp m h)
        (ih
          ∙ mod-mul x ((base * base % m) ^ q) m
          ∙ sym (mul-mod_factor x ((base * base % m) ^ q) m)
          ∙ ap (λ y. x * y % m) (pow-mod (base * base) q m)
          ∙ mul-mod_factor x ((base * base) ^ q) m
          ∙ ap (λ y. y % m)
              (mul_assoc result (odd_part base exp) ((base * base) ^ q)
                ∙ ap (λ y. result * y) (sym (pow_halve base exp))))
]
  where
    halved : (fuel exp : ℕ) → exp < 2 ^ suc fuel → exp / 2 < 2 ^ fuel
    halved fuel exp e = let k : exp < 2 ^ fuel * 2 = rw (pow-suc 2 fuel) at e in omega arith

-- `mod_pow` is the remainder of the power, for a 64-bit exponent and a modulus greater than 1.
pub mod_pow_lem : (base exp m : ℕ) → 1 < m → exp < 2 ^ 64 → mod_pow base exp m ≡ base ^ exp % m
unfolding mod_pow
mod_pow_lem base exp m h e =
    mod_pow_loop_lem 64 1 (base % m) exp m h e ∙ ap (λ x. x % m) (omega arith) ∙ pow-mod base exp m
