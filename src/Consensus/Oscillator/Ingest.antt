-- ===== src/Consensus/Oscillator/Ingest.antt =====
-- The ingestion of signals, src/consensus/oscillator.rs; the clock that stamps a shift is an argument.
pub mod Refusal
use fluidic_node.Prelude.{
  ℕ, ◌≡◌, ◌≢◌, ◌⊎◌, inl, inr, refl, ap, Bool, true, false, not, ◌&&◌, List, [], ◌∷◌, ◌++◌, Option,
  none, some, if◌then◌else◌, nat_beq, nat_eq, list_eq, pair_eq, Result, ok, err, arith, Bool-cases,
  Option-cases, none_ne_some,
}
use fluidic_node.Prelude.Map.{Map, lookup, insert, contains_key, is_some}
use fluidic_node.Prelude.Bytes.{Bytes}
use fluidic_node.Crypto.Shift.Commutative.{CommutativeShift}
use fluidic_node.Crypto.Shift.Stateful.{StatefulShift}
use fluidic_node.Crypto.Shift.Stake.{StakeShift}
use fluidic_node.Field.WaveField.{
  WaveField, ensure_account, set_non_decaying, credit_account, account_balance,
}
use fluidic_node.Consensus.Certificate.{SynthesisCertificate}
use fluidic_node.Consensus.Domain.{DomainPolicy, OrderingMode, commutative, causal, strict}
use fluidic_node.Consensus.Oscillator.{Oscillator, check_and_record_nonce, seed_balance}

pub record RegistrationShift : Type 0 where
  pub account : ℕ
  pub public_key : ℕ
  pub wave_account : ℕ
  pub usdc_account : ℕ
  pub nonce : ℕ
  pub timestamp_ns : ℕ

pub data Signal : Type 0 where
  commutative_signal : CommutativeShift → Signal
  stateful_signal : StatefulShift → Signal
  registration_signal : RegistrationShift → Signal
  stake_signal : StakeShift → Signal
  ping pong : ℕ → ℕ → Signal
  certificate_signal : SynthesisCertificate → Signal
  auth : ℕ → Signal

pub data IngestError : Type 0 where
  unknown_domain not_commutative not_stateful predecessors_refused replay zero_amount
        stake_refused :
      IngestError

abbrev pub mark_non_decaying : ℕ → Oscillator → Oscillator
mark_non_decaying account o = record o { field = set_non_decaying account o.field }

abbrev pub registration_grant : ℕ
registration_grant = 10000000000000

-- `if field.account_balance(a).units == 0 { field.credit_account(a, ..) }`
abbrev pub grant : ℕ → WaveField → WaveField
grant account f =
    if nat_beq (account_balance account f).units 0
    then credit_account account registration_grant f
    else f

unfoldable pub apply_registration : RegistrationShift → Oscillator → Oscillator
apply_registration reg o =
    let (seen, fresh) = check_and_record_nonce reg.account 0 reg.nonce o.seen_nonces in
    if not fresh
    then o
    else let f = set_non_decaying reg.usdc_account (
        ensure_account reg.usdc_account
          (ensure_account reg.wave_account (ensure_account reg.account o.field))) in
      record o {
        seen_nonces = seen;
        dag =
            seed_balance reg.usdc_account registration_grant
              (seed_balance reg.wave_account registration_grant o.dag);
        field = grant reg.usdc_account (grant reg.wave_account f);
      }

unfoldable pub ingest_commutative :
    CommutativeShift → Oscillator → Oscillator × Result (Unit {0}) IngestError
ingest_commutative s o = elim (lookup s.domain o.domain_registry) [
  | none ↦ (o, err unknown_domain)
  | some policy ↦
      if not policy.allows_commutative
      then (o, err not_commutative)
      else if contains_key s.signature o.seen_signatures
      then (o, ok tt)
      else (
        record o {
          seen_signatures = insert s.signature tt o.seen_signatures;
          pending_commutative =
              o.pending_commutative ++ ((s.domain, s.coordinate, s.delta, s.pool_id) ∷ []);
        },
        ok tt,
      )
]

abbrev pub is_commutative : OrderingMode → Bool
is_commutative causal = false
is_commutative commutative = true
is_commutative strict = false

abbrev pub has_predecessors : StatefulShift → Bool
has_predecessors s = elim s.predecessors [ [] ↦ false | _ ∷ _ ↦ true ]

-- `if shift.first_seen_at_ns == 0 { shift.first_seen_at_ns = now_ns() }`
abbrev pub stamped : ℕ → StatefulShift → StatefulShift
stamped now_ns s =
    if nat_beq s.first_seen_at_ns 0 then record s { first_seen_at_ns = now_ns } else s

-- the part of `ingest_stateful` past the checks of the policy and the nonce
unfoldable pub queue_stateful :
    ℕ → StatefulShift → Oscillator → Oscillator × Result (Unit {0}) IngestError
queue_stateful now_ns s o =
    if contains_key s.signature o.seen_signatures
    then (o, ok tt)
    else if nat_beq s.amount 0
    then (o, err zero_amount)
    else (
      record o {
        seen_signatures = insert s.signature tt o.seen_signatures;
        pending_stateful = o.pending_stateful ++ (stamped now_ns s ∷ []);
      },
      ok tt,
    )

unfoldable pub ingest_stateful :
    ℕ → StatefulShift → Oscillator → Oscillator × Result (Unit {0}) IngestError
ingest_stateful now_ns s o = elim (lookup s.domain o.domain_registry) [
  | none ↦ (o, err unknown_domain)
  | some policy ↦
      if not policy.stateful
      then (o, err not_stateful)
      else if is_commutative policy.ordering && has_predecessors s
      then (o, err predecessors_refused)
      else let (seen, fresh) = check_and_record_nonce s.sender s.domain s.nonce o.seen_nonces in
        if not fresh
        then (o, err replay)
        else queue_stateful now_ns s (record o { seen_nonces = seen })
]

unfoldable pub ingest : ℕ → Signal → Oscillator → Oscillator × Result (Unit {0}) IngestError
ingest now_ns (commutative_signal s) o = ingest_commutative s o
ingest now_ns (stateful_signal s) o = ingest_stateful now_ns s o
ingest now_ns (registration_signal s) o = (o, ok tt)
ingest now_ns (stake_signal s) o = (o, err stake_refused)
ingest now_ns (ping t n) o = (o, ok tt)
ingest now_ns (pong t n) o = (o, ok tt)
ingest now_ns (certificate_signal c) o = (o, ok tt)
ingest now_ns (auth proof) o = (o, ok tt)
