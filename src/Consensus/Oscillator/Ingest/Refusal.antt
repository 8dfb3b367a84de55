-- ===== src/Consensus/Oscillator/Ingest/Refusal.antt =====
-- What a refused signal leaves behind, and what a queued one has passed: `ingest` of
-- src/consensus/oscillator.rs.
use fluidic_node.Prelude.{
  ℕ, ◌≡◌, ◌≢◌, inl, inr, refl, true, false, ◌&&◌, [], ◌∷◌, ◌++◌, some, nat_beq, nat_eq, list_eq,
  pair_eq, Result, ok, err, arith, Bool-cases, Option-cases,
}
use fluidic_node.Prelude.Map.{lookup, insert, contains_key}
use fluidic_node.Crypto.Shift.Stateful.{StatefulShift}
use fluidic_node.Consensus.Domain.{DomainPolicy}
use fluidic_node.Consensus.Oscillator.{Oscillator, check_and_record_nonce}
use fluidic_node.Consensus.Oscillator.Ingest.{
  IngestError, unknown_domain, not_stateful, predecessors_refused, replay, zero_amount,
  stateful_signal, stamped, queue_stateful, ingest_stateful, ingest, is_commutative,
  has_predecessors,
}

abbrev recorded : StatefulShift → Oscillator → Oscillator
recorded s o = record o {
  seen_nonces = (check_and_record_nonce s.sender s.domain s.nonce o.seen_nonces).0;
}

-- the ways an ingestion ends
pub data Ingested (now : ℕ) (s : StatefulShift) (o : Oscillator) (o' : Oscillator)
    : Result (Unit {0}) IngestError → Type 0 where
  refused : (e : IngestError) → e ≢ zero_amount → o' ≡ o → Ingested now s o o' (err e)
  spent : s.amount ≡ 0 → o' ≡ recorded s o → Ingested now s o o' (err zero_amount)
  known :
      contains_key s.signature o.seen_signatures ≡ true
      → o' ≡ recorded s o
      → Ingested now s o o' (ok tt)
  queued :
      (policy : DomainPolicy)
      → lookup s.domain o.domain_registry ≡ some policy
      → policy.stateful ≡ true
      → (check_and_record_nonce s.sender s.domain s.nonce o.seen_nonces).1 ≡ true
      → s.amount ≢ 0
      → contains_key s.signature o.seen_signatures ≡ false
      → o' ≡ record (recorded s o) {
        seen_signatures = insert s.signature tt o.seen_signatures;
        pending_stateful = o.pending_stateful ++ (stamped now s ∷ []);
      }
      → Ingested now s o o' (ok tt)

queue_stateful-Ingested :
    (now : ℕ) (s : StatefulShift) (o : Oscillator) (policy : DomainPolicy)
    → lookup s.domain o.domain_registry ≡ some policy
    → policy.stateful ≡ true
    → (check_and_record_nonce s.sender s.domain s.nonce o.seen_nonces).1 ≡ true
    → let r = queue_stateful now s (recorded s o) in Ingested now s o r.0 r.1
unfolding queue_stateful
queue_stateful-Ingested now s o policy there allowed fresh =
    elim (Bool-cases (contains_key s.signature o.seen_signatures)) [
      | inl old ↦ rw old (known old refl)
      | inr unseen ↦ elim (Bool-cases (nat_beq s.amount 0)) [
        | inl zeroed ↦ rw (unseen, zeroed) (spent (ground arith) refl)
        | inr positive ↦
            rw (unseen, positive)
              (queued policy there allowed fresh (λ e. ground arith) unseen refl)
      ]
    ]

ingest_stateful-Ingested :
    (now : ℕ) (s : StatefulShift) (o : Oscillator)
    → Ingested now s o (ingest_stateful now s o).0 (ingest_stateful now s o).1
unfolding ingest_stateful
ingest_stateful-Ingested now s o = elim (Option-cases (lookup s.domain o.domain_registry)) [
  | inl gone ↦ rw (ingest_stateful, gone) (refused unknown_domain (λ e. ground arith) refl)
  | inr (policy, there) ↦ elim (Bool-cases policy.stateful) [
    | inr closed ↦
        rw (ingest_stateful, there, closed) (refused not_stateful (λ e. ground arith) refl)
    | inl allowed ↦ elim (Bool-cases (is_commutative policy.ordering && has_predecessors s)) [
      | inl edges ↦
          rw (ingest_stateful, there, allowed, edges)
            (refused predecessors_refused (λ e. ground arith) refl)
      | inr fine ↦
          elim (Bool-cases (check_and_record_nonce s.sender s.domain s.nonce o.seen_nonces).1) [
            | inr stale ↦
                rw (ingest_stateful, there, allowed, fine, stale)
                  (refused replay (λ e. ground arith) refl)
            | inl fresh ↦
                rw (ingest_stateful, there, allowed, fine, fresh)
                  (queue_stateful-Ingested now s o policy there allowed fresh)
          ]
    ]
  ]
]

-- A refused stateful signal leaves the oscillator as it was, except that one of amount zero has its
-- nonce recorded. An accepted one is known by its signature already, and only its nonce is recorded,
-- or it goes to the end of the queue: then its domain takes stateful signals, its nonce is fresh, its
-- amount is not zero and its signature is new.
pub ingest-Ingested :
    (now : ℕ) (s : StatefulShift) (o : Oscillator)
    → Ingested now s o (ingest now (stateful_signal s) o).0 (ingest now (stateful_signal s) o).1
unfolding ingest
ingest-Ingested now s o = ingest_stateful-Ingested now s o
