-- ===== src/Consensus/Oscillator/Batches.antt =====
-- Step 2 of `synthesize` of src/consensus/oscillator.rs: the commutative batches, one for each domain,
-- without the root that the certificate takes.
pub mod Count
pub mod Outcome
use fluidic_node.Prelude.{
  ℕ, ◌+◌, ◌≡◌, refl, ℤ, Bool, false, List, [], ◌∷◌, ◌++◌, Option, none, some, if◌then◌else◌, nat_eq,
  length, length-append, ok, err, Result-cases, arith, Bool-cases, inl, inr,
}
use fluidic_node.Prelude.Map.{Map, lookup, update, unwrap_or, sum_by, sum_by-insert, amount}
use fluidic_node.Crypto.Shift.Commutative.{Coordinate}
use fluidic_node.Field.WaveField.{WaveField}
use fluidic_node.Field.Batch.{Delta, synthesize_commutative_batch}
use fluidic_node.Consensus.Domain.{DomainPolicy}
use fluidic_node.Consensus.Oscillator.{Oscillator}

abbrev pub Pending : Type 0
Pending = ℕ × Coordinate × ℤ × ℕ

abbrev pub takes_batches : Option DomainPolicy → Bool
takes_batches none = false
takes_batches (some policy) = policy.allows_commutative

-- The `for` over the drained deltas; those of other domains are dropped.
unfoldable pub by_domain :
    Map ℕ DomainPolicy → List Pending → Map ℕ (List Delta) → Map ℕ (List Delta)
by_domain registry [] groups = groups
by_domain registry ((domain, coord, delta, pool) ∷ deltas) groups = by_domain registry deltas (
    if takes_batches (lookup domain registry)
    then update domain [] (λ ds. ds ++ ((coord, delta, pool) ∷ [])) groups
    else groups)

-- `pending.push((domain, coord, delta, pool))`, for each delta of a failed batch
unfoldable pub requeue : ℕ → List Delta → List Pending
requeue domain [] = []
requeue domain ((coord, delta, pool) ∷ ds) = (domain, coord, delta, pool) ∷ requeue domain ds

-- The `for` over the domains: the field, the deltas queued again, and the number applied.
unfoldable pub apply_batches :
    Map ℕ (List Delta) → WaveField → List Pending → ℕ → WaveField × List Pending × ℕ
apply_batches [] f pending applied = (f, pending, applied)
apply_batches ((domain, []) ∷ groups) f pending applied = apply_batches groups f pending applied
apply_batches ((domain, d ∷ ds) ∷ groups) f pending applied =
    let (f', r) = synthesize_commutative_batch (d ∷ ds) f in
    elim r [
      | ok _ ↦ apply_batches groups f' pending (applied + length (d ∷ ds))
      | err e ↦ apply_batches groups f' (pending ++ requeue domain (d ∷ ds)) applied
    ]

unfoldable pub synthesize_batches : Oscillator → Oscillator × ℕ
synthesize_batches o =
    let (f, pending, applied) =
      apply_batches (by_domain o.domain_registry o.pending_commutative []) o.field [] 0 in
    (record o { field = f; pending_commutative = pending }, applied)
