-- ===== src/Crypto/Shift/Commutative.antt =====
-- `CommutativeShift` of src/crypto/phase_shift.rs.
use fluidic_node.Prelude.{ℕ, ℤ, to_u128, Bool, ◌++◌}
use fluidic_node.Prelude.Bytes.{Bytes, ascii, to_le_bytes, id_bytes}
use fluidic_node.Crypto.Signatures.{Ed25519, verify_bytes}

-- `Coordinate` of src/field/coordinates.rs, its four components
pub record Coordinate : Type 0 where
  pub c0 : ℕ
  pub c1 : ℕ
  pub c2 : ℕ
  pub c3 : ℕ

abbrev pub to_bytes : Coordinate → Bytes → Bytes
to_bytes c rest =
    to_le_bytes 8 c.c0
    ++ (to_le_bytes 8 c.c1 ++ (to_le_bytes 8 c.c2 ++ (to_le_bytes 8 c.c3 ++ rest)))

pub record CommutativeShift : Type 0 where
  pub domain : ℕ
  pub coordinate : Coordinate
  pub delta : ℤ
  pub pool_id : ℕ
  pub nonce : ℕ
  pub timestamp_ns : ℕ
  pub first_seen_at_ns : ℕ
  pub signature : Bytes

unfoldable pub signing_bytes : CommutativeShift → Bytes
signing_bytes s =
    ascii "FLUIDIC:COMMUTATIVE:v2"
    ++ (id_bytes s.domain
        ++ to_bytes s.coordinate (
            to_le_bytes 16 (to_u128 s.delta)
            ++ (id_bytes s.pool_id ++ (to_le_bytes 8 s.nonce ++ to_le_bytes 8 s.timestamp_ns))))

unfoldable pub verify : (ed : Ed25519) → ed.VerifyingKey → CommutativeShift → Bool
verify ed key s = verify_bytes ed key (signing_bytes s) s.signature
