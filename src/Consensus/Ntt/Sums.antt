-- ===== src/Consensus/Ntt/Sums.antt =====
-- Sums of vectors over the field of src/consensus/ntt.rs.
use fluidic_node.Prelude.{
  ℕ, zero, suc, ◌+◌, ◌*◌, ◌%◌, ◌<◌, ◌≡◌, ◌∙◌, sym, ap, refl, arith, List, [], ◌∷◌, get_or, set,
  length, length-set, All,
}
use native.Mathlib.Nat.{mod-lt, add-mod, add-mul}
use fluidic_node.Prelude.Powers.{mod-mul}
use fluidic_node.Consensus.Ntt.{ntt_modulus, add_mod, sub_mod, mul_mod}

-- the sum of two vectors in the field
unfoldable pub sum_mod : List ℕ → List ℕ → List ℕ
sum_mod [] ys = []
sum_mod (x ∷ xs) [] = []
sum_mod (x ∷ xs) (y ∷ ys) = add_mod x y ntt_modulus ∷ sum_mod xs ys

abbrev pub Reduced : List ℕ → Type 0
Reduced xs = All (λ x. x < ntt_modulus) xs

-- two reduced vectors of one length
pub record Paired (a b : List ℕ) : Type 0 where
  pub lengths : length a ≡ length b
  pub left : Reduced a
  pub right : Reduced b

pub add_mod-lt :
    (x y : ℕ) → x < ntt_modulus → y < ntt_modulus → add_mod x y ntt_modulus < ntt_modulus
unfolding add_mod
add_mod-lt x y hx hy = ground arith

pub sub_mod-lt :
    (x y : ℕ) → x < ntt_modulus → y < ntt_modulus → sub_mod x y ntt_modulus < ntt_modulus
unfolding sub_mod
sub_mod-lt x y hx hy = ground arith

pub mul_mod-lt : (x y : ℕ) → mul_mod x y ntt_modulus < ntt_modulus
unfolding mul_mod
mul_mod-lt x y = mod-lt (x * y) (omega arith)

pub add_mod_swap :
    (u v x y : ℕ)
    → u < ntt_modulus
    → v < ntt_modulus
    → x < ntt_modulus
    → y < ntt_modulus
    → add_mod (add_mod u v ntt_modulus) (add_mod x y ntt_modulus) ntt_modulus
      ≡ add_mod (add_mod u x ntt_modulus) (add_mod v y ntt_modulus) ntt_modulus
unfolding add_mod
add_mod_swap u v x y hu hv hx hy = ground arith

pub sub_mod_swap :
    (u v x y : ℕ)
    → u < ntt_modulus
    → v < ntt_modulus
    → x < ntt_modulus
    → y < ntt_modulus
    → sub_mod (add_mod u v ntt_modulus) (add_mod x y ntt_modulus) ntt_modulus
      ≡ add_mod (sub_mod u x ntt_modulus) (sub_mod v y ntt_modulus) ntt_modulus
unfolding add_mod sub_mod
sub_mod_swap u v x y hu hv hx hy = ground arith

add_mod_lem :
    (x y : ℕ) → x < ntt_modulus → y < ntt_modulus → add_mod x y ntt_modulus ≡ (x + y) % ntt_modulus
unfolding add_mod
add_mod_lem x y hx hy = ground arith

pub mul_mod-add_mod :
    (x y w : ℕ)
    → x < ntt_modulus
    → y < ntt_modulus
    → mul_mod (add_mod x y ntt_modulus) w ntt_modulus
      ≡ add_mod (mul_mod x w ntt_modulus) (mul_mod y w ntt_modulus) ntt_modulus
unfolding mul_mod
mul_mod-add_mod x y w hx hy =
    ap (λ z. z * w % ntt_modulus) (add_mod_lem x y hx hy)
    ∙ mod-mul (x + y) w ntt_modulus
    ∙ ap (λ z. z % ntt_modulus) (add-mul x y w)
    ∙ add-mod (x * w) (y * w) ntt_modulus
    ∙ sym
        (add_mod_lem (x * w % ntt_modulus) (y * w % ntt_modulus) (mul_mod-lt x w) (mul_mod-lt y w))

pub get_or-lt : (a : List ℕ) (i : ℕ) → Reduced a → get_or a i 0 < ntt_modulus
get_or-lt [] i h = omega arith
get_or-lt (x ∷ a) zero h = h.0
get_or-lt (x ∷ a) (suc i) h = get_or-lt a i h.1

set-Reduced : (a : List ℕ) (i x : ℕ) → x < ntt_modulus → Reduced a → Reduced (set a i x)
set-Reduced [] i x hx h = tt
set-Reduced (y ∷ a) zero x hx h = (hx, h.1)
set-Reduced (y ∷ a) (suc i) x hx h = (h.0, set-Reduced a i x hx h.1)

pub get_or-sum_mod :
    (a b : List ℕ) (i : ℕ)
    → length a ≡ length b
    → get_or (sum_mod a b) i 0 ≡ add_mod (get_or a i 0) (get_or b i 0) ntt_modulus
unfolding sum_mod add_mod
get_or-sum_mod [] [] i e = refl
get_or-sum_mod [] (y ∷ b) i e = absurd (omega arith)
get_or-sum_mod (x ∷ a) [] i e = absurd (omega arith)
get_or-sum_mod (x ∷ a) (y ∷ b) zero e = refl
get_or-sum_mod (x ∷ a) (y ∷ b) (suc i) e = get_or-sum_mod a b i (omega (arith, e))

pub set-sum_mod :
    (a b : List ℕ) (i x y : ℕ)
    → set (sum_mod a b) i (add_mod x y ntt_modulus) ≡ sum_mod (set a i x) (set b i y)
unfolding sum_mod
set-sum_mod [] b i x y = refl
set-sum_mod (z ∷ a) [] zero x y = refl
set-sum_mod (z ∷ a) [] (suc i) x y = refl
set-sum_mod (z ∷ a) (w ∷ b) zero x y = refl
set-sum_mod (z ∷ a) (w ∷ b) (suc i) x y =
    ap (λ xs. add_mod z w ntt_modulus ∷ xs) (set-sum_mod a b i x y)

pub set-Paired :
    (a b : List ℕ) (i x y : ℕ)
    → x < ntt_modulus
    → y < ntt_modulus
    → Paired a b
    → Paired (set a i x) (set b i y)
set-Paired a b i x y hx hy p = record {
  lengths = length-set a i x ∙ p.lengths ∙ sym (length-set b i y);
  left = set-Reduced a i x hx p.left;
  right = set-Reduced b i y hy p.right;
}

pub length-sum_mod : (a b : List ℕ) → length a ≡ length b → length (sum_mod a b) ≡ length a
unfolding sum_mod
length-sum_mod [] [] e = refl
length-sum_mod [] (y ∷ b) e = refl
length-sum_mod (x ∷ a) [] e = absurd (omega arith)
length-sum_mod (x ∷ a) (y ∷ b) e = ap suc (length-sum_mod a b (omega (arith, e)))
