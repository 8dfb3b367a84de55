-- ===== src/Crypto/Shift/Stateful.antt =====
-- `StatefulShift` of src/crypto/phase_shift.rs. `blake3` and the signature scheme are parameters.
use fluidic_node.Prelude.{ℕ, Bool, false, List, [], ◌∷◌, ◌++◌, nat_beq, if◌then◌else◌, not}
use fluidic_node.Prelude.Bytes.{Bytes, ascii, to_le_bytes, id_bytes}
use fluidic_node.Crypto.Signatures.{Ed25519, verify_bytes, from_public_key}
use fluidic_node.Crypto.VectorClock.{VectorClock}

pub record StatefulShift : Type 0 where
  pub domain : ℕ
  pub sender : ℕ
  pub to : ℕ
  pub amount : ℕ
  pub vector_clock : VectorClock
  pub predecessors : List ℕ
  pub nonce : ℕ
  pub timestamp_ns : ℕ
  pub first_seen_at_ns : ℕ
  pub signature : Bytes

-- The `for` over the entries of the clock, and what follows it.
unfoldable pub clock_bytes : VectorClock → Bytes → Bytes
clock_bytes [] rest = rest
clock_bytes ((node, time) ∷ c) rest = id_bytes node ++ (to_le_bytes 8 time ++ clock_bytes c rest)

-- The `for` over the predecessors, and what follows it.
unfoldable pub predecessor_bytes : List ℕ → Bytes → Bytes
predecessor_bytes [] rest = rest
predecessor_bytes (p ∷ ps) rest = id_bytes p ++ predecessor_bytes ps rest

unfoldable pub signing_bytes : StatefulShift → Bytes
signing_bytes s =
    ascii "FLUIDIC:STATEFUL:v2"
    ++ (id_bytes s.domain
        ++ (id_bytes s.sender
            ++ (id_bytes s.to
                ++ (to_le_bytes 16 s.amount
                    ++ clock_bytes s.vector_clock (
                        predecessor_bytes s.predecessors
                          (to_le_bytes 8 s.nonce ++ to_le_bytes 8 s.timestamp_ns))))))

unfoldable pub hash : (Bytes → ℕ) → StatefulShift → ℕ
hash blake3 s = blake3 (signing_bytes s ++ s.signature)

unfoldable pub verify_signature : (ed : Ed25519) → ed.VerifyingKey → StatefulShift → Bool
verify_signature ed key s = verify_bytes ed key (signing_bytes s) s.signature

unfoldable pub verify : (ed : Ed25519) → (Bytes → ℕ) → ed.VerifyingKey → StatefulShift → Bool
verify ed blake3 key s =
    if not (verify_signature ed key s)
    then false
    else nat_beq (from_public_key ed blake3 key) s.sender
