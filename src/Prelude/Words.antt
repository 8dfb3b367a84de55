-- ===== src/Prelude/Words.antt =====
-- Rust's arithmetic on u64 and u128: the wrapping `+` and `-` of a release build, the saturating
-- operations, and what they compute while no bound is passed.
use Prim.Native.Nat.{ℕ, ◌+◌, ◌-◌, ◌*◌, ◌%◌, ◌≤◌, ◌<◌, min}
use mathlib.Core.Path.{◌≡◌}
use mathlib.Core.List.{List, [], ◌∷◌}
use native.Mathlib.Omega.{arith}

abbrev pub u64_mod : ℕ
u64_mod = 18446744073709551616

abbrev pub u128_mod : ℕ
u128_mod = 340282366920938463463374607431768211456

abbrev pub u128_max : ℕ
u128_max = 340282366920938463463374607431768211455

-- `a + b` and `a - b` on u64 and u128
abbrev pub add_u64 : ℕ → ℕ → ℕ
add_u64 a b = (a + b) % u64_mod

abbrev pub add_u128 : ℕ → ℕ → ℕ
add_u128 a b = (a + b) % u128_mod

abbrev pub sub_u128 : ℕ → ℕ → ℕ
sub_u128 a b = (a + u128_mod - b) % u128_mod

abbrev pub saturating_add : ℕ → ℕ → ℕ
saturating_add a b = min (a + b) u128_max

abbrev pub saturating_mul : ℕ → ℕ → ℕ
saturating_mul a b = min (a * b) u128_max

-- `saturating_sub` of either width
abbrev pub saturating_sub : ℕ → ℕ → ℕ
saturating_sub a b = a - b

pub sub_u128_exact : (a b : ℕ) → b ≤ a → a < u128_mod → sub_u128 a b ≡ a - b
sub_u128_exact a b h k = omega arith

pub add_u128_exact : (a b : ℕ) → a + b < u128_mod → add_u128 a b ≡ a + b
add_u128_exact a b h = omega arith

-- `iter().sum::<u128>()`, from an accumulator on.
abbrev pub sum_u128_from : ℕ → List ℕ → ℕ
sum_u128_from acc [] = acc
sum_u128_from acc (x ∷ xs) = sum_u128_from (add_u128 acc x) xs

abbrev pub sum_u128 : List ℕ → ℕ
sum_u128 xs = sum_u128_from 0 xs

abbrev pub sum : List ℕ → ℕ
sum [] = 0
sum (x ∷ xs) = x + sum xs

sum_u128_from_exact :
    (acc : ℕ) (xs : List ℕ) → acc + sum xs < u128_mod → sum_u128_from acc xs ≡ acc + sum xs
sum_u128_from_exact acc [] h = omega arith
sum_u128_from_exact acc (x ∷ xs) h =
    omega (arith, sum_u128_from_exact (add_u128 acc x) xs (omega arith))

-- The machine sum is the sum while that fits 128 bits.
pub sum_u128_exact : (xs : List ℕ) → sum xs < u128_mod → sum_u128 xs ≡ sum xs
sum_u128_exact xs h = omega (arith, sum_u128_from_exact 0 xs (omega arith))
