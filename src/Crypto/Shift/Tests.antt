-- ===== src/Crypto/Shift/Tests.antt =====
-- Runs and instances for the signed messages of src/crypto/phase_shift.rs.
use fluidic_node.Prelude.{ℕ, negsuc, ◌≡◌, ◌≢◌, ◌*◌, ◌^◌, refl, List, [], ◌∷◌, arith}
use fluidic_node.Prelude.Bytes.{to_le_bytes, to_be_bytes}
use fluidic_node.Crypto.VectorClock.{VectorClock}
use fluidic_node.Crypto.Shift.Commutative.{CommutativeShift}
use fluidic_node.Crypto.Shift.Stateful.{StatefulShift, clock_bytes, predecessor_bytes}
use fluidic_node.Crypto.Shift.Stake.{StakeShift}
use fluidic_node.Crypto.Shift.Commutative
use fluidic_node.Crypto.Shift.Stateful
use fluidic_node.Crypto.Shift.Stake
use fluidic_node.Crypto.Shift.Encoding.{HasWidths, signing_bytes_determined}
use fluidic_node.Crypto.Shift.Separation.{signing_bytes_apart}
use fluidic_node.Consensus.Domain.{dex_default, flat}
use fluidic_node.Consensus.Domain.Registration.{registration_bytes}
use fluidic_node.Consensus.Certificate.{SynthesisCertificate, signing_bytes}

abbrev shift : VectorClock → List ℕ → StatefulShift
shift c ps = record {
  domain = 1;
  sender = 2;
  to = 3;
  amount = 5;
  vector_clock = c;
  predecessors = ps;
  nonce = 9;
  timestamp_ns = 7;
  first_seen_at_ns = 0;
  signature = [];
}

abbrev clocked : StatefulShift
clocked = shift ((1, 0) ∷ (2, 0) ∷ (3, 0) ∷ (4, 0) ∷ []) []

abbrev referring : StatefulShift
referring = shift [] (1 ∷ 0 ∷ 2 * 256 ^ 24 ∷ 3 * 256 ^ 16 ∷ 4 * 256 ^ 8 ∷ [])

-- four clock entries and five predecessors fill the same bytes
ambiguous : Stateful.signing_bytes clocked ≡ Stateful.signing_bytes referring
unfolding Stateful.signing_bytes clock_bytes predecessor_bytes to_le_bytes to_be_bytes
ambiguous = refl

abbrev resigned : StatefulShift
resigned = record clocked { first_seen_at_ns = 4; signature = 8 ∷ [] }

clocked-HasWidths : HasWidths clocked
clocked-HasWidths = record {
  domain = omega arith;
  sender = omega arith;
  to = omega arith;
  amount = omega arith;
  vector_clock = (
    (omega arith, omega arith),
    ((omega arith, omega arith), ((omega arith, omega arith), ((omega arith, omega arith), tt))),
  );
  predecessors = tt;
  nonce = omega arith;
  timestamp_ns = omega arith;
}

resigned-HasWidths : HasWidths resigned
resigned-HasWidths = record {
  domain = omega arith;
  sender = omega arith;
  to = omega arith;
  amount = omega arith;
  vector_clock = clocked-HasWidths.vector_clock;
  predecessors = tt;
  nonce = omega arith;
  timestamp_ns = omega arith;
}

signing_bytes_determined_example :
    record clocked { first_seen_at_ns = 4; signature = 8 ∷ [] } ≡ resigned
unfolding Stateful.signing_bytes
signing_bytes_determined_example =
    signing_bytes_determined clocked resigned clocked-HasWidths resigned-HasWidths refl refl

abbrev delta : CommutativeShift
delta = record {
  domain = 1;
  coordinate = record { c0 = 1; c1 = 2; c2 = 3; c3 = 4 };
  delta = negsuc 4;
  pool_id = 6;
  nonce = 1;
  timestamp_ns = 2;
  first_seen_at_ns = 0;
  signature = [];
}

abbrev bond : StakeShift
bond = record {
  operator = 2;
  public_key = 5;
  amount = 6;
  nonce = 1;
  timestamp_ns = 2;
  signature = [];
}

abbrev cert : SynthesisCertificate
cert = record {
  operator = 2;
  tick = 7;
  commutative_applied = 0;
  stateful_applied = 0;
  evm_applied = 0;
  commutative_root = 1;
  stateful_root = 0;
  balances_root = 0;
  stake_root = 0;
  reward_root = 0;
  evm_root = 0;
  metabolic_burned = 0;
  timestamp_ns = 0;
  signature = [];
}

signing_bytes_apart_example :
    (Commutative.signing_bytes delta ≢ Stateful.signing_bytes clocked)
    × (Commutative.signing_bytes delta ≢ Stake.signing_bytes bond)
    × (Commutative.signing_bytes delta ≢ signing_bytes cert)
    × (Stateful.signing_bytes clocked ≢ Stake.signing_bytes bond)
    × (Stateful.signing_bytes clocked ≢ signing_bytes cert)
    × (Stake.signing_bytes bond ≢ signing_bytes cert)
    × (Commutative.signing_bytes delta ≢ registration_bytes dex_default 9)
    × (Stateful.signing_bytes clocked ≢ registration_bytes dex_default 9)
    × (Stake.signing_bytes bond ≢ registration_bytes dex_default 9)
    × (signing_bytes cert ≢ registration_bytes dex_default 9)
signing_bytes_apart_example = signing_bytes_apart delta clocked bond cert dex_default 9

-- The fee policy of a registration is not signed.
unsigned_fees :
    registration_bytes (record dex_default { fee_policy = flat 7 }) 9
    ≡ registration_bytes dex_default 9
unfolding registration_bytes
unsigned_fees = refl
