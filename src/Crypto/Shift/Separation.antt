-- ===== src/Crypto/Shift/Separation.antt =====
-- The signing bytes of src/crypto/phase_shift.rs, src/consensus/certificate.rs and src/api/routes.rs
-- name their kind.
use fluidic_node.Prelude.{ℕ, ◌≢◌, ◌≡◌, ◌∷◌, arith, ◌++◌}
use fluidic_node.Prelude.Bytes.{Bytes, ascii, head_eq, append_cancel}
use fluidic_node.Crypto.Shift.Commutative.{CommutativeShift}
use fluidic_node.Crypto.Shift.Stateful.{StatefulShift}
use fluidic_node.Crypto.Shift.Stake.{StakeShift}
use fluidic_node.Crypto.Shift.Commutative
use fluidic_node.Crypto.Shift.Stateful
use fluidic_node.Crypto.Shift.Stake
use fluidic_node.Consensus.Domain.{DomainPolicy}
use fluidic_node.Consensus.Domain.Registration.{registration_bytes}
use fluidic_node.Consensus.Certificate.{SynthesisCertificate, signing_bytes}

-- bytes that go on differently after a common prefix
apart_after : (p : Bytes) {a b : ℕ} (xs ys : Bytes) → a ≢ b → ¬ (p ++ a ∷ xs ≡ p ++ b ∷ ys)
apart_after p xs ys h e = h (head_eq (append_cancel p e)).0

-- No two of the five signed messages (commutative shifts, stateful shifts, stake announcements,
-- synthesis certificates and domain registrations) share signing bytes, whatever their fields.
pub signing_bytes_apart :
    (c : CommutativeShift) (s : StatefulShift) (k : StakeShift) (t : SynthesisCertificate)
    (policy : DomainPolicy) (fee : ℕ)
    → (Commutative.signing_bytes c ≢ Stateful.signing_bytes s)
      × (Commutative.signing_bytes c ≢ Stake.signing_bytes k)
      × (Commutative.signing_bytes c ≢ signing_bytes t)
      × (Stateful.signing_bytes s ≢ Stake.signing_bytes k)
      × (Stateful.signing_bytes s ≢ signing_bytes t)
      × (Stake.signing_bytes k ≢ signing_bytes t)
      × (Commutative.signing_bytes c ≢ registration_bytes policy fee)
      × (Stateful.signing_bytes s ≢ registration_bytes policy fee)
      × (Stake.signing_bytes k ≢ registration_bytes policy fee)
      × (signing_bytes t ≢ registration_bytes policy fee)
unfolding Commutative.signing_bytes Stateful.signing_bytes Stake.signing_bytes signing_bytes
    registration_bytes
signing_bytes_apart c s k t policy fee = (
  apart_after (ascii "FLUIDIC:") _ _ (omega arith),
  apart_after (ascii "FLUIDIC:") _ _ (omega arith),
  apart_after (ascii "FLUIDIC:") _ _ (omega arith),
  apart_after (ascii "FLUIDIC:STA") _ _ (omega arith),
  apart_after (ascii "FLUIDIC:S") _ _ (omega arith),
  apart_after (ascii "FLUIDIC:S") _ _ (omega arith),
  apart_after (ascii "FLUIDIC:") _ _ (omega arith),
  apart_after (ascii "FLUIDIC:") _ _ (omega arith),
  apart_after (ascii "FLUIDIC:") _ _ (omega arith),
  apart_after (ascii "FLUIDIC:") _ _ (omega arith),
)
