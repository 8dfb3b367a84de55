-- ===== src/Prelude/Int.antt =====
-- Signed integers over the native numbers, and `i128` as its two's complement.
use Prim.Native.Nat.{ℕ, ◌+◌, ◌-◌, ◌%◌, ◌≤◌, suc, min}
use mathlib.Core.Path.{◌≡◌}
use mathlib.Core.Bool.{Bool, false}
use native.Mathlib.Omega.{arith}
use fluidic_node.Prelude.Tests.{ltb, nat_beq, if◌then◌else◌}
use fluidic_node.Prelude.Words.{u128_mod}

pub data ℤ : Type 0 where
  pos : ℕ → ℤ
  negsuc : ℕ → ℤ

-- `i128 as u128`
abbrev pub to_u128 : ℤ → ℕ
to_u128 (pos n) = n
to_u128 (negsuc n) = u128_mod - suc n

-- `m - n`
abbrev pub difference : ℕ → ℕ → ℤ
difference m n = if ltb m n then negsuc (n - m - 1) else pos (m - n)

abbrev pub add_int : ℤ → ℤ → ℤ
add_int (pos m) (pos n) = pos (m + n)
add_int (pos m) (negsuc n) = difference m (suc n)
add_int (negsuc m) (pos n) = difference n (suc m)
add_int (negsuc m) (negsuc n) = negsuc (suc (m + n))

abbrev pub i128_max : ℕ
i128_max = 170141183460469231731687303715884105727

-- `i128::saturating_add`
abbrev pub clamp_i128 : ℤ → ℤ
clamp_i128 (pos n) = pos (min n i128_max)
clamp_i128 (negsuc n) = negsuc (min n i128_max)

abbrev pub saturating_add_i128 : ℤ → ℤ → ℤ
saturating_add_i128 x y = clamp_i128 (add_int x y)

-- `a + b` on i128
abbrev pub wrap_i128 : ℤ → ℤ
wrap_i128 (pos n) =
    let r : ℕ = n % u128_mod in if ltb i128_max r then negsuc (u128_mod - r - 1) else pos r
wrap_i128 (negsuc n) =
    let r : ℕ = n % u128_mod in if ltb i128_max r then pos (u128_mod - r - 1) else negsuc r

abbrev pub add_i128 : ℤ → ℤ → ℤ
add_i128 x y = wrap_i128 (add_int x y)

abbrev pub int_beq : ℤ → ℤ → Bool
int_beq (pos m) (pos n) = nat_beq m n
int_beq (pos m) (negsuc n) = false
int_beq (negsuc m) (pos n) = false
int_beq (negsuc m) (negsuc n) = nat_beq m n

-- the positive and the negative part
abbrev pub up : ℤ → ℕ
up (pos n) = n
up (negsuc n) = 0

abbrev pub down : ℤ → ℕ
down (pos n) = 0
down (negsuc n) = suc n

-- A sum of i128 whose parts stay in range does not wrap.
pub add_i128_lem :
    (x y : ℤ)
    → up x + up y ≤ i128_max
    → down x + down y ≤ i128_max
    → (up (add_i128 x y) + (down x + down y) ≡ down (add_i128 x y) + (up x + up y))
      × (up (add_i128 x y) ≤ up x + up y)
      × (down (add_i128 x y) ≤ down x + down y)
add_i128_lem (pos m) (pos n) h k = ground arith
add_i128_lem (pos m) (negsuc n) h k = ground arith
add_i128_lem (negsuc m) (pos n) h k = ground arith
add_i128_lem (negsuc m) (negsuc n) h k = ground arith
