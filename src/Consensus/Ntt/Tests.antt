-- ===== src/Consensus/Ntt/Tests.antt =====
-- Runs and instances for src/consensus/ntt.rs.
use fluidic_node.Prelude.{◌≡◌, refl, [], ◌∷◌, arith}
use fluidic_node.Consensus.Ntt.Modular.{mod_pow_lem}
use fluidic_node.Consensus.Ntt.Sums.{sum_mod}
use fluidic_node.Consensus.Ntt.Linear.{ntt-sum_mod}
use fluidic_node.Consensus.Ntt.{
  NttEngine, new_engine, ntt, intt, mod_pow, mod_pow_loop, mod_inv, mul_mod, add_mod, sub_mod,
  powers, trailing_zeros, reverse_low, permute_from, bit_reverse_permute, butterflies, blocks,
  stages, ntt_modulus,
}

small_inverse : mod_inv 4 ntt_modulus ≡ 748683265
unfolding mod_inv mod_pow mod_pow_loop mul_mod
small_inverse = refl

abbrev engine : NttEngine
engine = new_engine 4

-- the transform of 1, 2, 3, 4 by its definition, with a fourth root of unity r: the k-th value is
-- 1 + 2 r ^ k + 3 r ^ (2 k) + 4 r ^ (3 k)
engine-ntt : ntt engine (1 ∷ 2 ∷ 3 ∷ 4 ∷ []) ≡ 10 ∷ 173167434 ∷ 998244351 ∷ 825076915 ∷ []
unfolding new_engine ntt mod_inv mod_pow mod_pow_loop mul_mod add_mod sub_mod powers trailing_zeros
    reverse_low permute_from bit_reverse_permute butterflies blocks stages
engine-ntt = refl

engine_returns : intt engine (ntt engine (1 ∷ 2 ∷ 3 ∷ 4 ∷ [])) ≡ 1 ∷ 2 ∷ 3 ∷ 4 ∷ []
unfolding new_engine ntt intt mod_inv mod_pow mod_pow_loop mul_mod add_mod sub_mod powers
    trailing_zeros reverse_low permute_from bit_reverse_permute butterflies blocks stages
engine_returns = refl

mod_pow_lem_example : mod_pow 3 5 7 ≡ 5
mod_pow_lem_example = mod_pow_lem 3 5 7 (omega arith) (omega arith)

ntt-sum_mod_example :
    ntt engine (sum_mod (1 ∷ 2 ∷ 3 ∷ 4 ∷ []) (9 ∷ 8 ∷ 7 ∷ 998244352 ∷ []))
    ≡ sum_mod (ntt engine (1 ∷ 2 ∷ 3 ∷ 4 ∷ [])) (ntt engine (9 ∷ 8 ∷ 7 ∷ 998244352 ∷ []))
ntt-sum_mod_example =
    ntt-sum_mod engine (1 ∷ 2 ∷ 3 ∷ 4 ∷ []) (9 ∷ 8 ∷ 7 ∷ 998244352 ∷ []) refl
      (omega arith, (omega arith, (omega arith, (omega arith, tt))))
      (omega arith, (omega arith, (omega arith, (omega arith, tt))))
