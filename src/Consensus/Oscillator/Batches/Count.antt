-- ===== src/Consensus/Oscillator/Batches/Count.antt =====
-- The number that step 2 of `synthesize` of src/consensus/oscillator.rs reports as applied.
use fluidic_node.Prelude.{
  ℕ, ◌+◌, ◌≡◌, refl, List, [], ◌∷◌, ◌++◌, Option, none, some, if◌then◌else◌, nat_eq, length,
  length-append, Result-cases, arith, Bool-cases, inl, inr,
}
use fluidic_node.Prelude.Map.{Map, lookup, update, unwrap_or, sum_by, sum_by-insert, amount}
use fluidic_node.Field.WaveField.{WaveField}
use fluidic_node.Field.Batch.{Delta, synthesize_commutative_batch}
use fluidic_node.Consensus.Domain.{DomainPolicy}
use fluidic_node.Consensus.Oscillator.{Oscillator}
use fluidic_node.Consensus.Oscillator.Batches.{
  Pending, takes_batches, by_domain, requeue, apply_batches, synthesize_batches,
}

-- the deltas whose domain takes none
abbrev pub dropped : Map ℕ DomainPolicy → List Pending → ℕ
dropped registry [] = 0
dropped registry ((domain, coord, delta, pool) ∷ deltas) =
    (if takes_batches (lookup domain registry) then 0 else 1) + dropped registry deltas

abbrev grouped : Map ℕ (List Delta) → ℕ
grouped groups = sum_by length groups

length-requeue : (domain : ℕ) (ds : List Delta) → length (requeue domain ds) ≡ length ds
unfolding requeue
length-requeue domain [] = refl
length-requeue domain ((coord, delta, pool) ∷ ds) = omega (arith, length-requeue domain ds)

grouped-update :
    (domain : ℕ) (d : Delta) (groups : Map ℕ (List Delta))
    → grouped (update domain [] (λ ds. ds ++ (d ∷ [])) groups) ≡ grouped groups + 1
grouped-update domain d groups =
    let old : List Delta = unwrap_or (lookup domain groups) [] in
    let s = sum_by-insert length domain (old ++ (d ∷ [])) groups in
    let l : length (old ++ (d ∷ [])) ≡ length old + 1 = length-append old (d ∷ []) in
    let same : amount length (lookup domain groups) ≡ length old = missing (lookup domain groups) in
    omega (arith, s, l, same)
  where
    missing : (o : Option (List Delta)) → amount length o ≡ length (unwrap_or o [])
    missing none = refl
    missing (some ds) = refl

by_domain-grouped :
    (registry : Map ℕ DomainPolicy) (deltas : List Pending) (groups : Map ℕ (List Delta))
    → grouped (by_domain registry deltas groups) + dropped registry deltas
      ≡ grouped groups + length deltas
unfolding by_domain
by_domain-grouped registry [] groups = refl
by_domain-grouped registry ((domain, coord, delta, pool) ∷ deltas) groups =
    elim (Bool-cases (takes_batches (lookup domain registry))) [
      | inl taken ↦
          let g = update domain [] (λ ds. ds ++ ((coord, delta, pool) ∷ [])) groups in
          rw taken (
            omega (
              arith,
              by_domain-grouped registry deltas g,
              grouped-update domain (coord, delta, pool) groups,
            ))
      | inr left ↦ rw left (omega (arith, by_domain-grouped registry deltas groups))
    ]

apply_batches-count :
    (groups : Map ℕ (List Delta)) (f : WaveField) (pending : List Pending) (applied : ℕ)
    → let (f', pending', applied') = apply_batches groups f pending applied in
      applied' + length pending' ≡ applied + length pending + grouped groups
unfolding apply_batches
apply_batches-count [] f pending applied = omega arith
apply_batches-count ((domain, []) ∷ groups) f pending applied =
    omega (arith, apply_batches-count groups f pending applied)
apply_batches-count ((domain, d ∷ ds) ∷ groups) f pending applied =
    let f' = (synthesize_commutative_batch (d ∷ ds) f).0 in
    elim (Result-cases (synthesize_commutative_batch (d ∷ ds) f).1) [
      | inl (u, done) ↦
          rw (apply_batches, done)
            (omega (arith, apply_batches-count groups f' pending (applied + length (d ∷ ds))))
      | inr (e, failed) ↦
          let again = requeue domain (d ∷ ds) in
          rw (apply_batches, failed)
            (omega (
              arith,
              apply_batches-count groups f' (pending ++ again) applied,
              length-append pending again,
              length-requeue domain (d ∷ ds),
            ))
    ]

-- The number applied, the deltas still pending and those of domains that take none add up to the
-- deltas that were pending.
pub synthesize_batches_count :
    (o : Oscillator)
    → let (o', applied) = synthesize_batches o in
      applied + length o'.pending_commutative + dropped o.domain_registry o.pending_commutative
      ≡ length o.pending_commutative
unfolding synthesize_batches
synthesize_batches_count o =
    let groups = by_domain o.domain_registry o.pending_commutative [] in
    omega (
      arith,
      by_domain-grouped o.domain_registry o.pending_commutative [],
      apply_batches-count groups o.field [] 0,
    )
