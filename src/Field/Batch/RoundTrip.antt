-- ===== src/Field/Batch/RoundTrip.antt =====
-- The field's representatives of signed numbers in src/field/wave_field.rs.
use fluidic_node.Prelude.{
  suc, ◌-◌, ◌/◌, ◌%◌, ◌≤◌, ◌≡◌, refl, ℤ, pos, negsuc, up, down, arith, ltb, nat_beq, true, false,
}
use fluidic_node.Consensus.Ntt.{ntt_modulus}
use fluidic_node.Field.Batch.{signed_to_field, field_to_signed}

-- A number of at most half the modulus, up or down, is what its representative stands for.
pub field_to_signed-signed_to_field :
    (x : ℤ)
    → up x ≤ ntt_modulus / 2
    → down x ≤ ntt_modulus / 2
    → field_to_signed (signed_to_field x) ≡ x
unfolding field_to_signed signed_to_field
field_to_signed-signed_to_field (pos n) h k =
    let small : n % ntt_modulus ≡ n = omega arith in
    let low : ltb (ntt_modulus / 2) n ≡ false = ground arith in rw (small, low) refl
field_to_signed-signed_to_field (negsuc n) h k =
    let small : suc n % ntt_modulus ≡ suc n = omega arith in
    let some_part : nat_beq (suc n) 0 ≡ false = ground arith in
    let high : ltb (ntt_modulus / 2) (ntt_modulus - suc n) ≡ true = ground arith in
    let back : ntt_modulus - (ntt_modulus - suc n) - 1 ≡ n = omega arith in
    rw (small, some_part, high, back) refl
