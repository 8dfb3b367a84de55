-- ===== src/Crypto/Signatures.antt =====
-- What the program takes from `ed25519_dalek`: keys and their bytes, the parsing of a signature, and
-- its check.
-- `KeyPair::verify` of src/crypto/keys.rs is the check's result as a Boolean.
use fluidic_node.Prelude.{ℕ, Bool, false, Option, none, some, nat_eq, pair_eq, list_eq}
use fluidic_node.Prelude.Bytes.{Bytes}

pub record Ed25519 : Type 1 where
  pub VerifyingKey : Type 0
  pub Signature : Type 0
  pub from_slice : Bytes → Option Signature
  pub as_bytes : VerifyingKey → Bytes
  pub from_bytes : Bytes → Option VerifyingKey
  pub verify : VerifyingKey → Bytes → Signature → Bool

-- `let Ok(sig) = Signature::from_slice(..) else { return false }; KeyPair::verify(..)`
abbrev pub verify_bytes : (ed : Ed25519) → ed.VerifyingKey → Bytes → Bytes → Bool
verify_bytes ed key message signature = elim (ed.from_slice signature) [
  | none ↦ false
  | some sig ↦ ed.verify key message sig
]

-- `AccountId::from_public_key`. The hash function of `blake3` is a parameter; its 32 bytes are the
-- number that they spell.
abbrev pub from_public_key : (ed : Ed25519) → (Bytes → ℕ) → ed.VerifyingKey → ℕ
from_public_key ed blake3 key = blake3 (ed.as_bytes key)
