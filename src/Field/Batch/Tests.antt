-- ===== src/Field/Batch/Tests.antt =====
-- Runs and instances for `synthesize_commutative_batch` of src/field/wave_field.rs.
use fluidic_node.Prelude.{ℕ, ◌≡◌, ◌+◌, refl, pos, negsuc, List, [], ◌∷◌, arith, ok, err, nat_eq}
use fluidic_node.Crypto.Shift.Commutative.{Coordinate}
use fluidic_node.Consensus.Ntt.{
  new_engine, ntt, intt, mod_pow, mod_pow_loop, mod_inv, mul_mod, add_mod, sub_mod, powers,
  trailing_zeros, reverse_low, permute_from, bit_reverse_permute, butterflies, blocks, stages,
}
use fluidic_node.Field.WaveField.{
  WaveField, new, zero_balance, would_go_negative, apply_commutative_delta, pool_balance,
}
use fluidic_node.Field.Batch.{
  Delta, to_ntt_index, signed_to_field, field_to_signed, aggregate, mismatch, apply_aggregates,
  pool_error, synthesize_commutative_batch,
}
use fluidic_node.Field.Batch.RoundTrip.{field_to_signed-signed_to_field}
use fluidic_node.Field.Batch.Sums.{pool_units, synthesize_commutative_batch_sums}

abbrev at_bin : ℕ → Coordinate
at_bin c = record { c0 = c; c1 = 0; c2 = 0; c3 = 0 }

abbrev field : WaveField
field = record (new 4) { pools = (7, record zero_balance { units = 10 }) ∷ [] }

abbrev deltas : List Delta
deltas = (at_bin 1, pos 5, 7) ∷ (at_bin 2, negsuc 2, 7) ∷ (at_bin 1, pos 4, 8) ∷ []

field-batch : (synthesize_commutative_batch deltas field).1 ≡ ok tt
unfolding synthesize_commutative_batch new_engine ntt intt mod_inv mod_pow mod_pow_loop mul_mod
    add_mod sub_mod powers trailing_zeros reverse_low permute_from bit_reverse_permute butterflies
    blocks stages to_ntt_index signed_to_field field_to_signed aggregate mismatch apply_aggregates
    apply_commutative_delta pool_balance
field-batch = refl

synthesize_commutative_batch_sums_example :
    pool_units 7 (synthesize_commutative_batch deltas field).0 + 3 ≡ 10 + 5
unfolding pool_balance
synthesize_commutative_batch_sums_example =
    synthesize_commutative_batch_sums 7 deltas field field-batch (omega arith) (omega arith)
      (omega arith)

-- A batch that fails on its second pool has moved the first one already.
abbrev overdrawn : List Delta
overdrawn = (at_bin 1, pos 5, 7) ∷ (at_bin 2, negsuc 0, 8) ∷ []

overdrawn-batch :
    let (f, r) = synthesize_commutative_batch overdrawn field in
    (r ≡ err (pool_error (would_go_negative 8 1))) × (pool_units 7 f ≡ 15)
unfolding synthesize_commutative_batch new_engine ntt intt mod_inv mod_pow mod_pow_loop mul_mod
    add_mod sub_mod powers trailing_zeros reverse_low permute_from bit_reverse_permute butterflies
    blocks stages to_ntt_index signed_to_field field_to_signed aggregate mismatch apply_aggregates
    apply_commutative_delta pool_balance
overdrawn-batch = (refl, refl)

field_to_signed-signed_to_field_example : field_to_signed (signed_to_field (negsuc 41)) ≡ negsuc 41
field_to_signed-signed_to_field_example =
    field_to_signed-signed_to_field (negsuc 41) (omega arith) (omega arith)
