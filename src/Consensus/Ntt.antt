-- ===== src/Consensus/Ntt.antt =====
-- The number-theoretic transform of src/consensus/ntt.rs. Vectors are lists; a loop over a range of
-- indices counts its rounds, and the `while` loops that halve or double a 64-bit number get 64.
pub mod Modular
pub mod Sums
pub mod Linear
mod Tests
use fluidic_node.Prelude.{
  ℕ, zero, suc, ◌+◌, ◌-◌, ◌*◌, ◌/◌, ◌%◌, ◌^◌, Bool, List, [], ◌∷◌, if◌then◌else◌, ltb, leb, nat_beq,
  get_or, set, map, length,
}

abbrev pub ntt_modulus : ℕ
ntt_modulus = 998244353

abbrev pub ntt_primitive_root : ℕ
ntt_primitive_root = 3

unfoldable pub add_mod : ℕ → ℕ → ℕ → ℕ
add_mod a b m = let s : ℕ = a + b in if leb m s then s - m else s

unfoldable pub sub_mod : ℕ → ℕ → ℕ → ℕ
sub_mod a b m = if leb b a then a - b else a + m - b

-- The product fits the 128 bits that the code takes for it.
unfoldable pub mul_mod : ℕ → ℕ → ℕ → ℕ
mul_mod a b m = a * b % m

-- The `while` of `mod_pow`, on fuel.
unfoldable pub mod_pow_loop : ℕ → ℕ → ℕ → ℕ → ℕ → ℕ
mod_pow_loop zero result base exp modulus = result
mod_pow_loop (suc fuel) result base exp modulus =
    let rest =
      mod_pow_loop fuel (if nat_beq (exp % 2) 1 then mul_mod result base modulus else result)
        (mul_mod base base modulus) (exp / 2) modulus in
    if nat_beq exp 0 then result else rest

unfoldable pub mod_pow : ℕ → ℕ → ℕ → ℕ
mod_pow base exp modulus = mod_pow_loop 64 1 (base % modulus) exp modulus

unfoldable pub mod_inv : ℕ → ℕ → ℕ
mod_inv a m = mod_pow a (m - 2) m

pub record NttEngine : Type 0 where
  pub size : ℕ
  pub roots : List ℕ
  pub inv_roots : List ℕ
  pub inv_size : ℕ

-- the loop that fills `roots` and `inv_roots`
unfoldable pub powers : ℕ → ℕ → ℕ → List ℕ
powers zero root x = []
powers (suc n) root x = x ∷ powers n root (mul_mod x root ntt_modulus)

-- `NttEngine::new` panics unless the size is a power of two from 2 on that divides the modulus less 1.
unfoldable pub new_engine : ℕ → NttEngine
new_engine size =
    let root : ℕ = mod_pow ntt_primitive_root ((ntt_modulus - 1) / size) ntt_modulus in
    let inv_root : ℕ = mod_inv root ntt_modulus in
    record {
      size = size;
      roots = powers size root 1;
      inv_roots = powers size inv_root 1;
      inv_size = mod_inv size ntt_modulus;
    }

-- `trailing_zeros`, on fuel
unfoldable pub trailing_zeros : ℕ → ℕ → ℕ
trailing_zeros zero n = 0
trailing_zeros (suc fuel) n =
    let rest = trailing_zeros fuel (n / 2) in if nat_beq (n % 2) 0 then suc rest else 0

-- `i.reverse_bits() >> (usize::BITS - bits)`
unfoldable pub reverse_low : ℕ → ℕ → ℕ
reverse_low zero i = 0
reverse_low (suc bits) i = i % 2 * 2 ^ bits + reverse_low bits (i / 2)

abbrev pub swap : ℕ → ℕ → List ℕ → List ℕ
swap i j a = set (set a i (get_or a j 0)) j (get_or a i 0)

-- The `for` of `bit_reverse_permute` over `n` indices from `i` on.
unfoldable pub permute_from : ℕ → ℕ → ℕ → List ℕ → List ℕ
permute_from bits i zero a = a
permute_from bits i (suc n) a =
    let rev : ℕ = reverse_low bits i in
    permute_from bits (suc i) n (if ltb i rev then swap i rev a else a)

unfoldable pub bit_reverse_permute : List ℕ → List ℕ
bit_reverse_permute a = permute_from (trailing_zeros 64 (length a)) 0 (length a) a

-- The `while j < half`, over `n` values from `j` on.
unfoldable pub butterflies : List ℕ → ℕ → ℕ → ℕ → ℕ → ℕ → List ℕ → List ℕ
butterflies roots step half i j zero a = a
butterflies roots step half i j (suc n) a =
    let u : ℕ = get_or a (i + j) 0 in
    let v : ℕ = mul_mod (get_or a (i + j + half) 0) (get_or roots (j * step) 0) ntt_modulus in
    butterflies roots step half i (suc j) n
      (set (set a (i + j) (add_mod u v ntt_modulus)) (i + j + half) (sub_mod u v ntt_modulus))

-- `for i in (0..size).step_by(len)`, over `n` blocks from `i` on
unfoldable pub blocks : List ℕ → ℕ → ℕ → ℕ → ℕ → List ℕ → List ℕ
blocks roots step len i zero a = a
blocks roots step len i (suc n) a =
    blocks roots step len (i + len) n (butterflies roots step (len / 2) i 0 (len / 2) a)

-- `while len <= size`, on fuel
unfoldable pub stages : ℕ → List ℕ → ℕ → ℕ → List ℕ → List ℕ
stages zero roots size len a = a
stages (suc fuel) roots size len a =
    let rest =
      stages fuel roots size (len * 2)
        (blocks roots (size / len) len 0 ((size + len - 1) / len) a) in
    if leb len size then rest else a

unfoldable pub ntt : NttEngine → List ℕ → List ℕ
ntt e a = stages 64 e.roots e.size 2 (bit_reverse_permute a)

unfoldable pub intt : NttEngine → List ℕ → List ℕ
intt e a =
    map (λ x. mul_mod x e.inv_size ntt_modulus)
      (stages 64 e.inv_roots e.size 2 (bit_reverse_permute a))
