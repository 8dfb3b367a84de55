-- ===== src/Prelude/Powers.antt =====
-- Powers by squaring, and remainders of products.
use Prim.Native.Nat.{ℕ, zero, suc, ◌+◌, ◌*◌, ◌/◌, ◌%◌, ◌^◌}
use mathlib.Core.Path.{◌≡◌, sym, ap, ◌∙◌}
use mathlib.Core.Logic.{inl, inr}
use native.Mathlib.Nat.{
  mul_comm, mul_assoc, pow-suc, pow-zero, add-mul, mod-add-div, add-mul-mod_self_left,
}
use native.Mathlib.Omega.{arith}
use fluidic_node.Prelude.Tests.{nat_beq, if◌then◌else◌, Bool-cases}

square-pow : (b n : ℕ) → b ^ (n + n) ≡ (b * b) ^ n
square-pow b zero = pow-zero b ∙ sym (pow-zero (b * b))
square-pow b (suc n) =
    let e : suc n + suc n ≡ suc (suc (n + n)) = omega arith in
    rw (e, pow-suc b (suc (n + n)), pow-suc b (n + n), pow-suc (b * b) n, square-pow b n)
      (mul_assoc ((b * b) ^ n) b b)

-- One round of square and multiply.
abbrev pub odd_part : ℕ → ℕ → ℕ
odd_part b e = if nat_beq (e % 2) 1 then b else 1

pub pow_halve : (b e : ℕ) → b ^ e ≡ odd_part b e * (b * b) ^ (e / 2)
pow_halve b e = elim (Bool-cases (nat_beq (e % 2) 1)) [
  | inl odd ↦
      let d : e ≡ suc (e / 2 + e / 2) = ground arith in
      rw odd (
        ap (λ x. b ^ x) d
        ∙ pow-suc b (e / 2 + e / 2)
        ∙ mul_comm (b ^ (e / 2 + e / 2)) b
        ∙ ap (λ x. b * x) (square-pow b (e / 2)))
  | inr even ↦
      let d : e ≡ e / 2 + e / 2 = ground arith in
      rw even (ap (λ x. b ^ x) d ∙ square-pow b (e / 2) ∙ sym (one_mul ((b * b) ^ (e / 2))))
]
  where
    one_mul : (x : ℕ) → 1 * x ≡ x
    one_mul x = omega arith

-- A factor may be reduced before the product is.
pub mod-mul : (a b m : ℕ) → a % m * b % m ≡ a * b % m
mod-mul a b m =
    let whole : a * b ≡ a % m * b + m * (a / m * b) =
      ap (λ x. x * b) (sym (mod-add-div a m))
      ∙ add-mul (a % m) (m * (a / m)) b
      ∙ ap (λ x. a % m * b + x) (mul_assoc m (a / m) b) in
    sym (ap (λ x. x % m) whole ∙ add-mul-mod_self_left (a % m * b) m (a / m * b))

pub mul-mod_factor : (a b m : ℕ) → a * (b % m) % m ≡ a * b % m
mul-mod_factor a b m =
    ap (λ x. x % m) (mul_comm a (b % m)) ∙ mod-mul b a m ∙ ap (λ x. x % m) (mul_comm b a)

pub pow-mod : (a e m : ℕ) → (a % m) ^ e % m ≡ a ^ e % m
pow-mod a zero m = ap (λ x. x % m) (pow-zero (a % m) ∙ sym (pow-zero a))
pow-mod a (suc e) m =
    ap (λ x. x % m) (pow-suc (a % m) e)
    ∙ mul-mod_factor ((a % m) ^ e) a m
    ∙ sym (mod-mul ((a % m) ^ e) a m)
    ∙ ap (λ x. x * a % m) (pow-mod a e m)
    ∙ mod-mul (a ^ e) a m
    ∙ ap (λ x. x % m) (sym (pow-suc a e))
