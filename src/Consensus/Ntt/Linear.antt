-- ===== src/Consensus/Ntt/Linear.antt =====
-- Sums of vectors under the forward transform of src/consensus/ntt.rs.
use fluidic_node.Prelude.{
  ℕ, zero, suc, ◌+◌, ◌-◌, ◌*◌, ◌/◌, ◌≡◌, ◌∙◌, ap, ap₂, refl, List, ltb, leb, Bool-cases, inl, inr,
  get_or, set, length,
}
use fluidic_node.Consensus.Ntt.{
  NttEngine, ntt_modulus, add_mod, sub_mod, mul_mod, reverse_low, trailing_zeros, swap,
  permute_from, bit_reverse_permute, butterflies, blocks, stages, ntt,
}
use fluidic_node.Consensus.Ntt.Sums.{
  sum_mod, Reduced, Paired, add_mod-lt, sub_mod-lt, mul_mod-lt, add_mod_swap, sub_mod_swap,
  mul_mod-add_mod, get_or-lt, get_or-sum_mod, set-sum_mod, set-Paired, length-sum_mod,
}

-- a loop that maps sums to sums and keeps pairs
abbrev IsAdditive : (List ℕ → List ℕ) → Type 0
IsAdditive f =
    (a b : List ℕ) → Paired a b → (f (sum_mod a b) ≡ sum_mod (f a) (f b)) × Paired (f a) (f b)

then_IsAdditive : (f g : List ℕ → List ℕ) → IsAdditive f → IsAdditive g → IsAdditive (λ a. g (f a))
then_IsAdditive f g hf hg a b p =
    let (e, q) = hf a b p in let (e', q') = hg (f a) (f b) q in (ap g e ∙ e', q')

swap-IsAdditive : (i j : ℕ) → IsAdditive (swap i j)
swap-IsAdditive i j a b p =
    let x = get_or a i 0 in
    let y = get_or b i 0 in
    let x' = get_or a j 0 in
    let y' = get_or b j 0 in
    let q = set-Paired a b i x' y' (get_or-lt a j p.left) (get_or-lt b j p.right) p in
    (
      ap₂ (λ u v. set (set (sum_mod a b) i u) j v) (get_or-sum_mod a b j p.lengths)
            (get_or-sum_mod a b i p.lengths)
          ∙ ap (λ c. set c j (add_mod x y ntt_modulus)) (set-sum_mod a b i x' y')
          ∙ set-sum_mod (set a i x') (set b i y') j x y,
      set-Paired (set a i x') (set b i y') j x y (get_or-lt a i p.left) (get_or-lt b i p.right) q,
    )

permute_from-IsAdditive : (bits i n : ℕ) → IsAdditive (permute_from bits i n)
unfolding permute_from
permute_from-IsAdditive bits i zero a b p = (refl, p)
permute_from-IsAdditive bits i (suc n) a b p = elim (Bool-cases (ltb i (reverse_low bits i))) [
  | inl moves ↦
      let (e, q) = swap-IsAdditive i (reverse_low bits i) a b p in
      let (e', q') =
        permute_from-IsAdditive bits (suc i) n (swap i (reverse_low bits i) a)
          (swap i (reverse_low bits i) b) q in
      rw moves (ap (permute_from bits (suc i) n) e ∙ e', q')
  | inr stays ↦ rw stays (permute_from-IsAdditive bits (suc i) n a b p)
]

-- one butterfly
abbrev butterfly : ℕ → ℕ → ℕ → List ℕ → List ℕ
butterfly w k l a =
    let u : ℕ = get_or a k 0 in
    let v : ℕ = mul_mod (get_or a l 0) w ntt_modulus in
    set (set a k (add_mod u v ntt_modulus)) l (sub_mod u v ntt_modulus)

butterfly-IsAdditive : (w k l : ℕ) → IsAdditive (butterfly w k l)
butterfly-IsAdditive w k l a b p =
    let u = get_or a k 0 in
    let x = get_or b k 0 in
    let v : ℕ = mul_mod (get_or a l 0) w ntt_modulus in
    let y : ℕ = mul_mod (get_or b l 0) w ntt_modulus in
    let hu = get_or-lt a k p.left in
    let hx = get_or-lt b k p.right in
    let hv = mul_mod-lt (get_or a l 0) w in
    let hy = mul_mod-lt (get_or b l 0) w in
    let eu = get_or-sum_mod a b k p.lengths in
    let ev : mul_mod (get_or (sum_mod a b) l 0) w ntt_modulus ≡ add_mod v y ntt_modulus =
      ap (λ z. mul_mod z w ntt_modulus) (get_or-sum_mod a b l p.lengths)
      ∙ mul_mod-add_mod (get_or a l 0) (get_or b l 0) w (get_or-lt a l p.left)
          (get_or-lt b l p.right) in
    let s1 = add_mod u v ntt_modulus in
    let t1 = add_mod x y ntt_modulus in
    let s2 = sub_mod u v ntt_modulus in
    let t2 = sub_mod x y ntt_modulus in
    (
      ap₂ (λ m n. set (set (sum_mod a b) k (add_mod m n ntt_modulus)) l (sub_mod m n ntt_modulus))
            eu ev
          ∙ ap₂ (λ m n. set (set (sum_mod a b) k m) l n) (add_mod_swap u x v y hu hx hv hy)
              (sub_mod_swap u x v y hu hx hv hy)
          ∙ ap (λ c. set c l (add_mod s2 t2 ntt_modulus)) (set-sum_mod a b k s1 t1)
          ∙ set-sum_mod (set a k s1) (set b k t1) l s2 t2,
      set-Paired (set a k s1) (set b k t1) l s2 t2 (sub_mod-lt u v hu hv) (sub_mod-lt x y hx hy)
          (set-Paired a b k s1 t1 (add_mod-lt u v hu hv) (add_mod-lt x y hx hy) p),
    )

butterflies-IsAdditive :
    (roots : List ℕ) (step half i j n : ℕ) → IsAdditive (butterflies roots step half i j n)
unfolding butterflies
butterflies-IsAdditive roots step half i j zero a b p = (refl, p)
butterflies-IsAdditive roots step half i j (suc n) a b p =
    then_IsAdditive (butterfly (get_or roots (j * step) 0) (i + j) (i + j + half))
      (butterflies roots step half i (suc j) n)
      (butterfly-IsAdditive (get_or roots (j * step) 0) (i + j) (i + j + half))
      (butterflies-IsAdditive roots step half i (suc j) n) a b p

blocks-IsAdditive : (roots : List ℕ) (step len i n : ℕ) → IsAdditive (blocks roots step len i n)
unfolding blocks
blocks-IsAdditive roots step len i zero a b p = (refl, p)
blocks-IsAdditive roots step len i (suc n) a b p =
    then_IsAdditive (butterflies roots step (len / 2) i 0 (len / 2))
      (blocks roots step len (i + len) n)
      (butterflies-IsAdditive roots step (len / 2) i 0 (len / 2))
      (blocks-IsAdditive roots step len (i + len) n) a b p

stages-IsAdditive :
    (fuel : ℕ) (roots : List ℕ) (size len : ℕ) → IsAdditive (stages fuel roots size len)
unfolding stages
stages-IsAdditive zero roots size len a b p = (refl, p)
stages-IsAdditive (suc fuel) roots size len a b p = elim (Bool-cases (leb len size)) [
  | inr done ↦ rw done (refl, p)
  | inl more ↦ rw more (
      then_IsAdditive (blocks roots (size / len) len 0 ((size + len - 1) / len))
        (stages fuel roots size (len * 2))
        (blocks-IsAdditive roots (size / len) len 0 ((size + len - 1) / len))
        (stages-IsAdditive fuel roots size (len * 2)) a b p)
]

bit_reverse_permute-IsAdditive : IsAdditive bit_reverse_permute
unfolding bit_reverse_permute
bit_reverse_permute-IsAdditive a b p =
    let n = length-sum_mod a b p.lengths in
    let (e, q) = permute_from-IsAdditive (trailing_zeros 64 (length a)) 0 (length a) a b p in
    let same : permute_from (trailing_zeros 64 (length a)) 0 (length a) b ≡ bit_reverse_permute b =
      ap (λ m. permute_from (trailing_zeros 64 m) 0 m b) p.lengths in
    (
      ap (λ m. permute_from (trailing_zeros 64 m) 0 m (sum_mod a b)) n
          ∙ e
          ∙ ap (sum_mod (bit_reverse_permute a)) same,
      rw (← same) q,
    )

-- The forward transform of a sum is the sum of the transforms, for two vectors of one length whose
-- entries are below the modulus.
pub ntt-sum_mod :
    (e : NttEngine) (a b : List ℕ)
    → length a ≡ length b
    → Reduced a
    → Reduced b
    → ntt e (sum_mod a b) ≡ sum_mod (ntt e a) (ntt e b)
unfolding ntt
ntt-sum_mod e a b l ha hb =
    (then_IsAdditive bit_reverse_permute (stages 64 e.roots e.size 2) bit_reverse_permute-IsAdditive
      (stages-IsAdditive 64 e.roots e.size 2) a b (record { lengths = l; left = ha; right = hb })).0
