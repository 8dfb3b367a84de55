-- ===== src/Field/Batch.antt =====
-- `synthesize_commutative_batch` of src/field/wave_field.rs and `to_ntt_index` of
-- src/field/coordinates.rs.
pub mod Sums
pub mod RoundTrip
mod Tests
use fluidic_node.Prelude.{
  ℕ, suc, ◌+◌, ◌-◌, ◌*◌, ◌/◌, ◌%◌, ℤ, pos, negsuc, Bool, List, [], ◌∷◌, Option, none, some,
  if◌then◌else◌, ltb, nat_beq, nat_eq, get_or, set, replicate, map, add_u64, u64_mod,
  saturating_add_i128, add_i128, int_beq, Result, ok, err,
}
use fluidic_node.Prelude.Map.{Map, update}
use fluidic_node.Crypto.Shift.Commutative.{Coordinate}
use fluidic_node.Consensus.Ntt.{ntt_modulus, ntt, intt}
use fluidic_node.Field.WaveField.{WaveField, PoolError, apply_commutative_delta}

abbrev pub Delta : Type 0
Delta = Coordinate × ℤ × ℕ

-- the `for` over the four components, with the wrapping product and sum
unfoldable pub to_ntt_index : Coordinate → ℕ → ℕ
to_ntt_index c size =
    let term = λ (x k : ℕ). x * (2654435761 + k) % u64_mod in
    add_u64 (add_u64 (add_u64 (term c.c0 0) (term c.c1 1)) (term c.c2 2)) (term c.c3 3) % size

unfoldable pub signed_to_field : ℤ → ℕ
signed_to_field (pos n) = n % ntt_modulus
signed_to_field (negsuc n) =
    let r : ℕ = suc n % ntt_modulus in if nat_beq r 0 then 0 else ntt_modulus - r

unfoldable pub field_to_signed : ℕ → ℤ
field_to_signed v = if ltb (ntt_modulus / 2) v then negsuc (ntt_modulus - v - 1) else pos v

-- The `for` over the deltas: the bins and the aggregates of the pools.
unfoldable pub aggregate : ℕ → List Delta → List ℤ → Map ℕ ℤ → List ℤ × Map ℕ ℤ
aggregate size [] time_domain pools = (time_domain, pools)
aggregate size ((coord, delta, pool_id) ∷ deltas) time_domain pools =
    let idx : ℕ = to_ntt_index coord size in
    aggregate size deltas
      (set time_domain idx (saturating_add_i128 (get_or time_domain idx (pos 0)) delta))
      (update pool_id (pos 0) (λ x. add_i128 x delta) pools)

-- The first bin, from the index `i` on, that the inverse transform does not recover.
unfoldable pub mismatch : ℕ → List ℤ → List ℕ → Option ℕ
mismatch i [] recovered = none
mismatch i (x ∷ xs) [] = none
mismatch i (x ∷ xs) (r ∷ rs) =
    if int_beq x (field_to_signed r) then mismatch (suc i) xs rs else some i

-- The `for` over the aggregates, whose body is that of `apply_commutative_delta`.
unfoldable pub apply_aggregates : Map ℕ ℤ → WaveField → WaveField × Result (Unit {0}) PoolError
apply_aggregates [] f = (f, ok tt)
apply_aggregates ((pool_id, total) ∷ pools) f =
    let (f', r) = apply_commutative_delta pool_id total f in
    elim r [ ok _ ↦ apply_aggregates pools f' | err e ↦ (f', err e) ]

pub data BatchError : Type 0 where
  round_trip_mismatch : ℕ → BatchError
  pool_error : PoolError → BatchError

abbrev pub batch_result : Result (Unit {0}) PoolError → Result (Unit {0}) BatchError
batch_result (ok u) = ok u
batch_result (err e) = err (pool_error e)

unfoldable pub synthesize_commutative_batch :
    List Delta → WaveField → WaveField × Result (Unit {0}) BatchError
synthesize_commutative_batch deltas f =
    let size : ℕ = f.ntt_engine.size in
    let (time_domain, pools) = aggregate size deltas (replicate size (pos 0)) [] in
    let spectrum = ntt f.ntt_engine (map signed_to_field time_domain) in
    elim (mismatch 0 time_domain (intt f.ntt_engine spectrum)) [
      | some i ↦ (f, err (round_trip_mismatch i))
      | none ↦
          let (f', r) = apply_aggregates pools (record f { spectrum = spectrum }) in
          (f', batch_result r)
    ]
