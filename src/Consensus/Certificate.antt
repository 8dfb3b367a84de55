-- ===== src/Consensus/Certificate.antt =====
-- Synthesis certificates and their tracker, src/consensus/certificate.rs. The concurrent maps make
-- one call of `apply` one step; the `slash` callback acts on a state of the caller's.
pub mod Encoding
pub mod Tally
pub mod Quorum
pub mod Equivocation
pub mod Roots
mod Tests
use fluidic_node.Prelude.{
  ℕ, ◌≡◌, ◌↔◌, Bool, true, ◌&&◌, not, [], ◌∷◌, ◌++◌, Option, none, some, arith, if◌then◌else◌, leb,
  nat_beq, add_u128, list_beq, Result, ok, err, nat_eq, pair_eq, list_eq,
}
use fluidic_node.Prelude.Eq.{HashKey}
use fluidic_node.Prelude.Map.{Map, lookup, insert, update}
use fluidic_node.Prelude.Bytes.{Bytes, ascii, to_le_bytes, id_bytes}
use fluidic_node.Crypto.Signatures.{Ed25519, verify_bytes}

pub record SynthesisCertificate : Type 0 where
  pub operator : ℕ
  pub tick : ℕ
  pub commutative_applied : ℕ
  pub stateful_applied : ℕ
  pub evm_applied : ℕ
  pub commutative_root : ℕ
  pub stateful_root : ℕ
  pub balances_root : ℕ
  pub stake_root : ℕ
  pub reward_root : ℕ
  pub evm_root : ℕ
  pub metabolic_burned : ℕ
  pub timestamp_ns : ℕ
  pub signature : Bytes

unfoldable pub signing_bytes : SynthesisCertificate → Bytes
signing_bytes c =
    ascii "FLUIDIC:SYNTHESIS:v3"
    ++ (id_bytes c.operator
        ++ (to_le_bytes 8 c.tick
            ++ (to_le_bytes 8 c.commutative_applied
                ++ (to_le_bytes 8 c.stateful_applied
                    ++ (to_le_bytes 8 c.evm_applied
                        ++ (id_bytes c.commutative_root
                            ++ (id_bytes c.stateful_root
                                ++ (id_bytes c.balances_root
                                    ++ (id_bytes c.stake_root
                                        ++ (id_bytes c.reward_root
                                            ++ (id_bytes c.evm_root
                                                ++ (to_le_bytes 16 c.metabolic_burned
                                                    ++ to_le_bytes 8 c.timestamp_ns))))))))))))

abbrev pub verify : (ed : Ed25519) → ed.VerifyingKey → SynthesisCertificate → Bool
verify ed key c = verify_bytes ed key (signing_bytes c) c.signature

pub record QuorumView : Type 0 where
  pub commutative_root : ℕ
  pub stateful_root : ℕ
  pub evm_root : ℕ
  pub balances_root : ℕ
  pub stake_root : ℕ
  pub reward_root : ℕ

-- the derived `PartialEq`
abbrev pub view_beq : QuorumView → QuorumView → Bool
view_beq v w =
    nat_beq v.commutative_root w.commutative_root
    && (nat_beq v.stateful_root w.stateful_root
        && (nat_beq v.evm_root w.evm_root
            && (nat_beq v.balances_root w.balances_root
                && (nat_beq v.stake_root w.stake_root && nat_beq v.reward_root w.reward_root))))

pub view_beq_iff : (v w : QuorumView) → (view_beq v w ≡ true) ↔ (v ≡ w)
view_beq_iff v w = ground arith

instance abbrev pub view_eq : HashKey QuorumView
view_eq = record { same = view_beq; same_iff = view_beq_iff }

-- `QuorumView::from(&cert)`
abbrev pub view_of : SynthesisCertificate → QuorumView
view_of c = record {
  commutative_root = c.commutative_root;
  stateful_root = c.stateful_root;
  evm_root = c.evm_root;
  balances_root = c.balances_root;
  stake_root = c.stake_root;
  reward_root = c.reward_root;
}

pub data SlashingReason : Type 0 where
  invalid_signature unstaked_operator conflicting_certificate : SlashingReason

pub record CertificateTracker : Type 0 where
  pub by_operator_tick : Map (ℕ × ℕ) SynthesisCertificate
  pub by_tick : Map ℕ (Map QuorumView ℕ)

unfoldable pub new : CertificateTracker
new = record { by_operator_tick = []; by_tick = [] }

-- `entry(view).and_modify(|s| *s += stake).or_insert(stake)`
unfoldable pub tally : QuorumView → ℕ → Map QuorumView ℕ → Map QuorumView ℕ
tally view stake groups =
    insert view (elim (lookup view groups) [ none ↦ stake | some s ↦ add_u128 s stake ]) groups

-- The vacant branch of `apply`.
unfoldable pub accept : ℕ → SynthesisCertificate → CertificateTracker → CertificateTracker
accept stake cert t = record {
  by_operator_tick = insert (cert.operator, cert.tick) cert t.by_operator_tick;
  by_tick = update cert.tick [] (tally (view_of cert) stake) t.by_tick;
}

module _ (ed : Ed25519) {S : Type 0} where
  -- `apply` returns the tracker, the state that the callback acts on, and the result.
  unfoldable pub apply :
      Map ℕ ed.VerifyingKey
      → (ℕ → Bool)
      → (ℕ → ℕ)
      → (ℕ → S → S)
      → SynthesisCertificate
      → CertificateTracker
      → S
      → CertificateTracker × S × Result (Unit {0}) SlashingReason
  apply key_registry stake_checker stake_amount slash cert t s =
      elim (lookup cert.operator key_registry) [
        | none ↦ (t, s, err invalid_signature)
        | some pk ↦
            if not (verify ed pk cert)
            then (t, s, err invalid_signature)
            else if not (stake_checker cert.operator)
            then (t, s, err unstaked_operator)
            else elim (lookup (cert.operator, cert.tick) t.by_operator_tick) [
              | some old ↦
                  if not (list_beq (signing_bytes old) (signing_bytes cert))
                  then (t, slash cert.operator s, err conflicting_certificate)
                  else (t, s, ok tt)
              | none ↦ (accept (stake_amount cert.operator) cert t, s, ok tt)
            ]
      ]

-- `iter().find(|e| *e.value() >= threshold)`
unfoldable pub find_quorum : ℕ → Map QuorumView ℕ → Option (QuorumView × ℕ)
find_quorum threshold [] = none
find_quorum threshold ((v, s) ∷ groups) =
    if leb threshold s then some (v, s) else find_quorum threshold groups

unfoldable pub check_quorum : ℕ → ℕ → CertificateTracker → Option (QuorumView × ℕ)
check_quorum tick threshold t = elim (lookup tick t.by_tick) [
  | none ↦ none
  | some groups ↦ find_quorum threshold groups
]
