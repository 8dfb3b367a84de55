-- ===== src/Crypto/Shift/Stake.antt =====
-- `StakeShift` of src/crypto/phase_shift.rs. `blake3` and the signature scheme are parameters.
use fluidic_node.Prelude.{ℕ, Bool, false, ◌++◌, none, some, nat_beq, if◌then◌else◌, not}
use fluidic_node.Prelude.Bytes.{Bytes, ascii, to_le_bytes, id_bytes}
use fluidic_node.Crypto.Signatures.{Ed25519, verify_bytes, from_public_key}

pub record StakeShift : Type 0 where
  pub operator : ℕ
  pub public_key : ℕ
  pub amount : ℕ
  pub nonce : ℕ
  pub timestamp_ns : ℕ
  pub signature : Bytes

unfoldable pub signing_bytes : StakeShift → Bytes
signing_bytes s =
    ascii "FLUIDIC:STAKE:v1"
    ++ (id_bytes s.operator
        ++ (id_bytes s.public_key
            ++ (to_le_bytes 16 s.amount
                ++ (to_le_bytes 8 s.nonce ++ to_le_bytes 8 s.timestamp_ns))))

unfoldable pub verify : Ed25519 → (Bytes → ℕ) → StakeShift → Bool
verify ed blake3 s = elim (ed.from_bytes (id_bytes s.public_key)) [
  | none ↦ false
  | some pk ↦
      if not (verify_bytes ed pk (signing_bytes s) s.signature)
      then false
      else nat_beq (from_public_key ed blake3 pk) s.operator
]
