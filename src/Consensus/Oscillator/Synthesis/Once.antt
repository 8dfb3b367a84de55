-- ===== src/Consensus/Oscillator/Synthesis/Once.antt =====
-- The hashes that the steps of a run of src/consensus/oscillator.rs apply. A run ingests signals and
-- takes the stages of `synthesize` for stateful shifts, with any order of hashes; stakes, registrations,
-- batches and certificates are no steps of it.
use fluidic_node.Prelude.{
  ℕ, ◌≡◌, ◌⊎◌, ◌∙◌, ap, inl, inr, refl, List, [], ◌∷◌, some, ltb, nat_eq, list_eq, arith, Mem,
  Bool-cases, Option-cases, Result,
}
use fluidic_node.Prelude.Map.{Map, lookup, contains_key}
use fluidic_node.Prelude.Bytes.{Bytes}
use fluidic_node.Crypto.Signatures.{Ed25519}
use fluidic_node.Crypto.Shift.Commutative.{CommutativeShift}
use fluidic_node.Crypto.Shift.Stateful.{StatefulShift}
use fluidic_node.Consensus.Oscillator.{Oscillator}
use fluidic_node.Consensus.Oscillator.Ingest.{
  Signal, commutative_signal, stateful_signal, registration_signal, stake_signal, ping, pong,
  certificate_signal, auth, ingest, ingest_commutative, IngestError,
}
use fluidic_node.Consensus.Oscillator.Ingest.Refusal.{
  Ingested, refused, spent, known, queued, ingest-Ingested,
}
use fluidic_node.Consensus.Oscillator.Synthesis.{
  Settlement, decay, order_pending, apply_nodes, unsettled, charge_fees, commit,
}
use fluidic_node.Consensus.Oscillator.Synthesis.Authority.{apply_nodes-Authorized}
use fluidic_node.Consensus.Oscillator.Synthesis.Marks.{
  Applied, Applied-order_pending, Applied-mark_applied, mark_applied-Applied,
}

ingest_commutative-dag :
    (s : CommutativeShift) (o : Oscillator) → (ingest_commutative s o).0.dag ≡ o.dag
unfolding ingest_commutative
ingest_commutative-dag s o = elim (Option-cases (lookup s.domain o.domain_registry)) [
  | inl gone ↦ rw (ingest_commutative, gone) refl
  | inr (policy, there) ↦ elim (Bool-cases policy.allows_commutative) [
    | inr closed ↦ rw (ingest_commutative, there, closed) refl
    | inl allowed ↦ elim (Bool-cases (contains_key s.signature o.seen_signatures)) [
      | inl seen ↦ rw (ingest_commutative, there, allowed, seen) refl
      | inr new_one ↦ rw (ingest_commutative, there, allowed, new_one) refl
    ]
  ]
]

Ingested-dag :
    (now : ℕ) (s : StatefulShift) (o o' : Oscillator) (r : Result (Unit {0}) IngestError)
    → Ingested now s o o' r
    → o'.dag ≡ o.dag
Ingested-dag now s o o' r (refused e other same) = ap (λ x. x.dag) same
Ingested-dag now s o o' r (spent zeroed same) = ap (λ x. x.dag) same
Ingested-dag now s o o' r (known old same) = ap (λ x. x.dag) same
Ingested-dag now s o o' r (queued policy there allowed fresh positive unseen same) =
    ap (λ x. x.dag) same

ingest-dag : (now : ℕ) (s : Signal) (o : Oscillator) → (ingest now s o).0.dag ≡ o.dag
unfolding ingest
ingest-dag now (commutative_signal s) o = ingest_commutative-dag s o
ingest-dag now (stateful_signal s) o = Ingested-dag now s o _ _ (ingest-Ingested now s o)
ingest-dag now (registration_signal s) o = refl
ingest-dag now (stake_signal s) o = refl
ingest-dag now (ping t n) o = refl
ingest-dag now (pong t n) o = refl
ingest-dag now (certificate_signal c) o = refl
ingest-dag now (auth proof) o = refl

charge_fees-dag : (s : Settlement) (o : Oscillator) → (charge_fees s o).dag ≡ o.dag
unfolding charge_fees
charge_fees-dag s o = elim (Bool-cases (ltb 0 s.total_fees)) [
  | inl some_fees ↦ rw (charge_fees, some_fees) refl
  | inr no_fees ↦ rw (charge_fees, no_fees) refl
]

module _ (ed : Ed25519) (blake3 : Bytes → ℕ) where
  -- a step of the oscillator, and the hashes of the shifts that it applies
  pub data Step (o : Oscillator) (applied : List ℕ) (o' : Oscillator) : Type 0 where
    ingested : (now : ℕ) (s : Signal) → applied ≡ [] → o' ≡ (ingest now s o).0 → Step o applied o'
    decayed : (tick : ℕ) → applied ≡ [] → o' ≡ (decay tick o).0 → Step o applied o'
    ordered :
        (keys : Map ℕ ed.VerifyingKey) (tick : ℕ)
        → applied ≡ []
        → o' ≡ (order_pending ed blake3 keys tick o).0
        → Step o applied o'
    settled :
        (keys : Map ℕ ed.VerifyingKey) (order : List ℕ) (tick : ℕ) (balances : Map ℕ ℕ)
        (s : Settlement)
        → apply_nodes ed keys order o (unsettled o) ≡ some s
        → applied ≡ s.hashes
        → o' ≡ commit tick s balances (charge_fees s o)
        → Step o applied o'

  -- a run, and what each of its steps applies
  pub data Run : Oscillator → List (List ℕ) → Type 0 where
    stopped : (o : Oscillator) → Run o []
    stepped :
        (o : Oscillator) (applied : List ℕ) (o' : Oscillator) (rest : List (List ℕ))
        → Step o applied o'
        → Run o' rest
        → Run o (applied ∷ rest)

  -- the hash stands in one of the lists
  abbrev pub Within : ℕ → List (List ℕ) → Type 0
  Within h [] = ⊥
  Within h (hs ∷ rest) = Mem h hs ⊎ Within h rest

  -- no hash stands in two of the lists
  abbrev pub Apart : List (List ℕ) → Type 0
  Apart [] = Unit
  Apart (hs ∷ rest) = ((h : ℕ) → Mem h hs → ¬ Within h rest) × Apart rest

  Applied-commit :
      (h tick : ℕ) (s : Settlement) (balances : Map ℕ ℕ) (o : Oscillator)
      → Applied h o.dag.nodes
      → Applied h (commit tick s balances (charge_fees s o)).dag.nodes
  unfolding commit
  Applied-commit h tick s balances o a =
      Applied-mark_applied h s.hashes (charge_fees s o).dag.nodes (rw (charge_fees-dag s o) a)

  Applied-Step :
      (h : ℕ) (o o' : Oscillator) (applied : List ℕ)
      → Step o applied o'
      → Applied h o.dag.nodes
      → Applied h o'.dag.nodes
  unfolding decay
  Applied-Step h o o' applied (ingested now s idle e) a =
      rw (ap (λ x. x.dag) e ∙ ingest-dag now s o) a
  Applied-Step h o o' applied (decayed tick idle e) a = rw (ap (λ x. x.dag) e) a
  Applied-Step h o o' applied (ordered keys tick idle e) a =
      rw (ap (λ x. x.dag) e) (Applied-order_pending ed blake3 keys tick h o a)
  Applied-Step h o o' applied (settled keys order tick balances s done own e) a =
      rw (ap (λ x. x.dag) e) (Applied-commit h tick s balances o a)

  -- A step applies no shift that is marked, and marks those that it applies.
  Step-fresh :
      (h : ℕ) (o o' : Oscillator) (applied : List ℕ)
      → Step o applied o'
      → Mem h applied
      → ¬ Applied h o.dag.nodes × Applied h o'.dag.nodes
  unfolding commit
  Step-fresh h o o' applied (ingested now s idle e) m = absurd (rw idle at m)
  Step-fresh h o o' applied (decayed tick idle e) m = absurd (rw idle at m)
  Step-fresh h o o' applied (ordered keys tick idle e) m = absurd (rw idle at m)
  Step-fresh h o o' applied (settled keys order tick balances s done own e) m =
      let m' : Mem h s.hashes = rw own at m in
      let (n, there, signed, cleared) = apply_nodes-Authorized ed keys order h o s done m' in
      let same : lookup h (charge_fees s o).dag.nodes ≡ some n =
        ap (λ x. lookup h x.nodes) (charge_fees-dag s o) ∙ there in
      (
        λ a. absurd (ground (arith, a.1, a.2, there, signed.first_time)),
        rw (ap (λ x. x.dag) e)
            (mark_applied-Applied h s.hashes (charge_fees s o).dag.nodes n m' same),
      )

  Run-fresh :
      (h : ℕ) (o : Oscillator) (rest : List (List ℕ))
      → Run o rest
      → Applied h o.dag.nodes
      → ¬ Within h rest
  Run-fresh h o rest (stopped o1) a w = absurd w
  Run-fresh h o rest (stepped o1 applied o' later step run) a (inl m) =
      (Step-fresh h o1 o' applied step m).0 a
  Run-fresh h o rest (stepped o1 applied o' later step run) a (inr w) =
      Run-fresh h o' later run (Applied-Step h o1 o' applied step a) w

  -- In any run of ingestions, decays, orderings of the pending shifts and settlements, with any keys,
  -- orders, ticks and balances, no two steps apply the same shift.
  pub Run-Apart : (o : Oscillator) (rest : List (List ℕ)) → Run o rest → Apart rest
  Run-Apart o rest (stopped o1) = tt
  Run-Apart o rest (stepped o1 applied o' later step run) = (
    λ h m. Run-fresh h o' later run (Step-fresh h o1 o' applied step m).1,
    Run-Apart o' later run,
  )
