-- ===== src/Consensus/Oscillator/Batches/Outcome.antt =====
-- What step 2 of `synthesize` of src/consensus/oscillator.rs makes of the deltas of each domain.
use fluidic_node.Prelude.{
  ℕ, ◌+◌, ◌≡◌, ◌≢◌, ◌∙◌, ◌⊎◌, sym, ap, subst, refl, Bool, true, false, List, [], ◌∷◌, ◌++◌, none,
  if◌then◌else◌, nat_beq, nat_eq, length, Result, ok, err, Result-cases, arith, Bool-cases, inl,
  inr,
}
use fluidic_node.Prelude.Slices.{append_assoc, append_empty}
use fluidic_node.Prelude.Map.{Map, lookup, update, unwrap_or, IsMap, insert-IsMap, lookup-insert}
use fluidic_node.Field.WaveField.{WaveField}
use fluidic_node.Field.Batch.{Delta, BatchError, synthesize_commutative_batch}
use fluidic_node.Consensus.Domain.{DomainPolicy}
use fluidic_node.Consensus.Oscillator.{Oscillator}
use fluidic_node.Consensus.Oscillator.Batches.{
  Pending, takes_batches, by_domain, requeue, apply_batches, synthesize_batches,
}
use fluidic_node.Consensus.Oscillator.Batches.Count.{dropped, synthesize_batches_count}

-- the deltas of one domain in a queue, in their order
abbrev pub of_domain : ℕ → List Pending → List Delta
of_domain k [] = []
of_domain k ((domain, coord, delta, pool) ∷ deltas) =
    if nat_beq domain k then (coord, delta, pool) ∷ of_domain k deltas else of_domain k deltas

abbrev pub group : ℕ → Map ℕ (List Delta) → List Delta
group k groups = unwrap_or (lookup k groups) []

of_domain-append :
    (k : ℕ) (xs ys : List Pending) → of_domain k (xs ++ ys) ≡ of_domain k xs ++ of_domain k ys
of_domain-append k [] ys = refl
of_domain-append k ((domain, coord, delta, pool) ∷ xs) ys = elim (Bool-cases (nat_beq domain k)) [
  | inl own ↦ rw own (ap (λ ds. (coord, delta, pool) ∷ ds) (of_domain-append k xs ys))
  | inr other ↦ rw other (of_domain-append k xs ys)
]

of_domain-requeue :
    (k domain : ℕ) (ds : List Delta)
    → of_domain k (requeue domain ds) ≡ (if nat_beq domain k then ds else [])
unfolding requeue
of_domain-requeue k domain [] = elim (Bool-cases (nat_beq domain k)) [
  | inl own ↦ rw own refl
  | inr other ↦ rw other refl
]
of_domain-requeue k domain ((coord, delta, pool) ∷ ds) = elim (Bool-cases (nat_beq domain k)) [
  | inl own ↦
      let rest : of_domain k (requeue domain ds) ≡ ds = rw own at (of_domain-requeue k domain ds) in
      rw own (ap (λ xs. (coord, delta, pool) ∷ xs) rest)
  | inr other ↦
      let rest : of_domain k (requeue domain ds) ≡ [] =
        rw other at (of_domain-requeue k domain ds) in
      rw other rest
]

group-update :
    (k domain : ℕ) (d : Delta) (groups : Map ℕ (List Delta))
    → group k (update domain [] (λ ds. ds ++ (d ∷ [])) groups)
      ≡ (if nat_beq domain k then group k groups ++ (d ∷ []) else group k groups)
group-update k domain d groups =
    let at_domain = lookup-insert k domain (group domain groups ++ (d ∷ [])) groups in
    elim (Bool-cases (nat_beq domain k)) [
      | inl own ↦
          let same : domain ≡ k = ground arith in
          let e = rw own at at_domain in rw (own, e, same) refl
      | inr other ↦ let e = rw other at at_domain in rw (other, e) refl
    ]

apart_domains :
    (registry : Map ℕ DomainPolicy) (j k : ℕ)
    → takes_batches (lookup j registry) ≢ takes_batches (lookup k registry)
    → nat_beq j k ≡ false
apart_domains registry j k differ = elim (Bool-cases (nat_beq j k)) [
  | inl own ↦
      let same : j ≡ k = ground arith in
      absurd (differ (ap (λ d. takes_batches (lookup d registry)) same))
  | inr other ↦ other
]

by_domain-taken :
    (registry : Map ℕ DomainPolicy) (k : ℕ) (deltas : List Pending) (groups : Map ℕ (List Delta))
    → takes_batches (lookup k registry) ≡ true
    → group k (by_domain registry deltas groups) ≡ group k groups ++ of_domain k deltas
unfolding by_domain
by_domain-taken registry k [] groups t = sym (append_empty (group k groups))
by_domain-taken registry k ((domain, coord, delta, pool) ∷ deltas) groups t =
    let d : Delta = (coord, delta, pool) in
    let more : Map ℕ (List Delta) = update domain [] (λ ds. ds ++ (d ∷ [])) groups in
    elim (Bool-cases (takes_batches (lookup domain registry))) [
      | inl taken ↦
          let ih = by_domain-taken registry k deltas more t in
          elim (Bool-cases (nat_beq domain k)) [
            | inl own ↦
                let g : group k more ≡ group k groups ++ (d ∷ []) =
                  rw own at (group-update k domain d groups) in
                rw (taken, own)
                  (ih
                    ∙ ap (λ ds. ds ++ of_domain k deltas) g
                    ∙ append_assoc (group k groups) (d ∷ []) (of_domain k deltas))
            | inr other ↦
                let g : group k more ≡ group k groups =
                  rw other at (group-update k domain d groups) in
                rw (taken, other) (ih ∙ ap (λ ds. ds ++ of_domain k deltas) g)
          ]
      | inr left ↦
          let apart : nat_beq domain k ≡ false =
            apart_domains registry domain k (λ e. absurd (ground arith)) in
          rw (left, apart) (by_domain-taken registry k deltas groups t)
    ]

by_domain-left :
    (registry : Map ℕ DomainPolicy) (k : ℕ) (deltas : List Pending) (groups : Map ℕ (List Delta))
    → takes_batches (lookup k registry) ≡ false
    → group k (by_domain registry deltas groups) ≡ group k groups
unfolding by_domain
by_domain-left registry k [] groups t = refl
by_domain-left registry k ((domain, coord, delta, pool) ∷ deltas) groups t =
    let d : Delta = (coord, delta, pool) in
    let more : Map ℕ (List Delta) = update domain [] (λ ds. ds ++ (d ∷ [])) groups in
    elim (Bool-cases (takes_batches (lookup domain registry))) [
      | inr left ↦ rw left (by_domain-left registry k deltas groups t)
      | inl taken ↦
          let apart : nat_beq domain k ≡ false =
            apart_domains registry domain k (λ e. absurd (ground arith)) in
          let g : group k more ≡ group k groups = rw apart at (group-update k domain d groups) in
          rw taken (by_domain-left registry k deltas more t ∙ g)
    ]

by_domain-IsMap :
    (registry : Map ℕ DomainPolicy) (deltas : List Pending) (groups : Map ℕ (List Delta))
    → IsMap groups
    → IsMap (by_domain registry deltas groups)
unfolding by_domain
by_domain-IsMap registry [] groups u = u
by_domain-IsMap registry ((domain, coord, delta, pool) ∷ deltas) groups u =
    by_domain-IsMap registry deltas _ (kept (takes_batches (lookup domain registry)))
  where
    kept :
        (b : Bool)
        → IsMap (
            if b then update domain [] (λ ds. ds ++ ((coord, delta, pool) ∷ [])) groups else groups)
    kept true = insert-IsMap domain (group domain groups ++ ((coord, delta, pool) ∷ [])) groups u
    kept false = u

-- the field after the batches of some domains, each run once
abbrev pub run_batches : Map ℕ (List Delta) → WaveField → WaveField
run_batches [] f = f
run_batches ((domain, []) ∷ groups) f = run_batches groups f
run_batches ((domain, d ∷ ds) ∷ groups) f =
    run_batches groups (synthesize_commutative_batch (d ∷ ds) f).0

-- what a batch leaves in the queue of its domain
abbrev pub Ended : List Delta → Result (Unit {0}) BatchError → List Delta → Type 0
Ended ds (ok _) queue = queue ≡ []
Ended ds (err e) queue = queue ≡ ds

-- The domain has no deltas and none in the queue, or its batch ran on what the batches before it left.
abbrev pub Outcome : ℕ → Map ℕ (List Delta) → WaveField → List Delta → Type 0
Outcome k groups f queue =
    ((group k groups ≡ []) × (queue ≡ []))
    ⊎ ((before : Map ℕ (List Delta)) × (after : Map ℕ (List Delta)) × (groups
          ≡ before ++ ((k, group k groups) ∷ after))
        × Ended (group k groups)
            (synthesize_commutative_batch (group k groups) (run_batches before f)).1 queue)

apply_batches-field :
    (groups : Map ℕ (List Delta)) (f : WaveField) (pending : List Pending) (applied : ℕ)
    → (apply_batches groups f pending applied).0 ≡ run_batches groups f
unfolding apply_batches
apply_batches-field [] f pending applied = refl
apply_batches-field ((domain, []) ∷ groups) f pending applied =
    apply_batches-field groups f pending applied
apply_batches-field ((domain, d ∷ ds) ∷ groups) f pending applied =
    let f' = (synthesize_commutative_batch (d ∷ ds) f).0 in
    elim (Result-cases (synthesize_commutative_batch (d ∷ ds) f).1) [
      | inl (u, done) ↦
          rw (apply_batches, done)
            (apply_batches-field groups f' pending (applied + length (d ∷ ds)))
      | inr (e, failed) ↦
          rw (apply_batches, failed)
            (apply_batches-field groups f' (pending ++ requeue domain (d ∷ ds)) applied)
    ]

-- what a queue holds of a domain, with what the batches add
abbrev Queued : ℕ → Map ℕ (List Delta) → WaveField → List Pending → List Pending → Type 0
Queued k groups f pending pending' =
    (queue : List Delta) × (of_domain k pending' ≡ of_domain k pending ++ queue)
    × Outcome k groups f queue

run_batches-first :
    (domain : ℕ) (ds : List Delta) (groups : Map ℕ (List Delta)) (f : WaveField)
    → run_batches ((domain, ds) ∷ groups) f ≡ run_batches groups (run_batches ((domain, ds) ∷ []) f)
run_batches-first domain [] groups f = refl
run_batches-first domain (d ∷ ds) groups f = refl

-- a group of another domain in front changes nothing for a domain
Queued-behind :
    (k domain : ℕ) (ds : List Delta) (groups : Map ℕ (List Delta)) (f : WaveField)
    (pending pending' : List Pending)
    → nat_beq domain k ≡ false
    → Queued k groups (run_batches ((domain, ds) ∷ []) f) pending pending'
    → Queued k ((domain, ds) ∷ groups) f pending pending'
Queued-behind k domain ds groups f pending pending' other (queue, e, inl (none_there, empty)) =
    (queue, e, inl (rw other none_there, empty))
Queued-behind k domain ds groups f pending pending' other
      (queue, e, inr (before, after, split, o)) =
    (
      queue,
      e,
      inr (
        (domain, ds) ∷ before,
        after,
        rw other (ap (λ g. (domain, ds) ∷ g) split),
        rw (other, run_batches-first domain ds before f) o,
      ),
    )

Outcome-none :
    (k : ℕ) (groups : Map ℕ (List Delta)) (f : WaveField) (queue : List Delta)
    → group k groups ≡ []
    → Outcome k groups f queue
    → queue ≡ []
Outcome-none k groups f queue gone (inl (_, empty)) = empty
Outcome-none k groups f queue gone (inr (before, after, split, o)) =
    elim (Result-cases (synthesize_commutative_batch (group k groups) (run_batches before f)).1) [
      | inl (u, done) ↦ rw done at o
      | inr (e, failed) ↦ (rw failed at o) ∙ gone
    ]

-- the first group, of the domain itself, decides what is queued
Queued-here :
    (k domain : ℕ) (ds queue : List Delta) (groups : Map ℕ (List Delta)) (f f' : WaveField)
    (pending more pending' : List Pending)
    → nat_beq domain k ≡ true
    → lookup domain groups ≡ none
    → of_domain k more ≡ of_domain k pending ++ queue
    → Ended ds (synthesize_commutative_batch ds f).1 queue
    → Queued k groups f' more pending'
    → Queued k ((domain, ds) ∷ groups) f pending pending'
Queued-here k domain ds queue groups f f' pending more pending' own gone e o (rest, e', o') =
    let same : domain ≡ k = ground arith in
    let z : rest ≡ [] = Outcome-none k groups f' rest (rw (← same, gone) refl) o' in
    (
      queue,
      e' ∙ ap (λ xs. of_domain k more ++ xs) z ∙ append_empty (of_domain k more) ∙ e,
      inr ([], groups, rw own (ap (λ i. (i, ds) ∷ groups) same), rw own o),
    )

apply_batches-Queued :
    (k : ℕ) (groups : Map ℕ (List Delta)) (f : WaveField) (pending : List Pending) (applied : ℕ)
    → IsMap groups
    → Queued k groups f pending (apply_batches groups f pending applied).1
unfolding apply_batches
apply_batches-Queued k [] f pending applied u =
    ([], sym (append_empty (of_domain k pending)), inl (refl, refl))
apply_batches-Queued k ((domain, []) ∷ groups) f pending applied u =
    let ih = apply_batches-Queued k groups f pending applied u.1 in
    elim (Bool-cases (nat_beq domain k)) [
      | inr other ↦ Queued-behind k domain [] groups f pending _ other ih
      | inl own ↦
          let same : domain ≡ k = ground arith in
          let gone : lookup k groups ≡ none = rw (← same) u.0 in
          let z : ih.0 ≡ [] = Outcome-none k groups f ih.0 (rw gone refl) ih.2 in
          (ih.0, ih.1, inl (rw own refl, z))
    ]
apply_batches-Queued k ((domain, d ∷ ds) ∷ groups) f pending applied u =
    let f' = (synthesize_commutative_batch (d ∷ ds) f).0 in
    let again = requeue domain (d ∷ ds) in
    let ran = apply_batches-Queued k groups f' pending (applied + length (d ∷ ds)) u.1 in
    let back = apply_batches-Queued k groups f' (pending ++ again) applied u.1 in
    let queued : of_domain k (pending ++ again)
        ≡ of_domain k pending ++ (if nat_beq domain k then d ∷ ds else []) =
      of_domain-append k pending again
      ∙ ap (λ xs. of_domain k pending ++ xs) (of_domain-requeue k domain (d ∷ ds)) in
    elim (Result-cases (synthesize_commutative_batch (d ∷ ds) f).1) [
      | inl (_, done) ↦ elim (Bool-cases (nat_beq domain k)) [
        | inr other ↦
            rw (apply_batches, done) (Queued-behind k domain (d ∷ ds) groups f pending _ other ran)
        | inl own ↦
            rw (apply_batches, done)
              (Queued-here k domain (d ∷ ds) [] groups f f' pending pending _ own u.0
                (sym (append_empty (of_domain k pending))) (rw done refl) ran)
      ]
      | inr (e, failed) ↦ elim (Bool-cases (nat_beq domain k)) [
        | inr other ↦
            let unchanged : of_domain k (pending ++ again) ≡ of_domain k pending =
              rw other at queued ∙ append_empty (of_domain k pending) in
            rw (apply_batches, failed)
              (Queued-behind k domain (d ∷ ds) groups f pending _ other
                (back.0, back.1 ∙ ap (λ xs. xs ++ back.0) unchanged, back.2))
        | inl own ↦
            rw (apply_batches, failed)
              (Queued-here k domain (d ∷ ds) (d ∷ ds) groups f f' pending (pending ++ again) _ own
                u.0 (rw own at queued) (rw failed refl) back)
      ]
    ]

-- The deltas of each domain form one batch, in their order, when the domain takes commutative signals,
-- and are dropped when it does not. The batches run once each, one domain after the other, each on the
-- field that the one before left, failed or not, and the last one leaves the new field. Afterwards the
-- queue holds none of the deltas of a batch that succeeded, and all of the deltas of one that failed,
-- in their order and unchanged. The number applied, the length of the queue and the number dropped add
-- up to the number of deltas that were pending.
pub synthesize_batches-Outcome :
    (o : Oscillator)
    → let (o', applied) = synthesize_batches o in
      ((groups : Map ℕ (List Delta)) × IsMap groups
        × ((k : ℕ)
            → group k groups ≡ (
                if takes_batches (lookup k o.domain_registry)
                then of_domain k o.pending_commutative
                else []))
        × (o'.field ≡ run_batches groups o.field)
        × ((k : ℕ) → Outcome k groups o.field (of_domain k o'.pending_commutative)))
      × (applied + length o'.pending_commutative + dropped o.domain_registry o.pending_commutative
          ≡ length o.pending_commutative)
unfolding synthesize_batches
synthesize_batches-Outcome o =
    let groups = by_domain o.domain_registry o.pending_commutative [] in
    let once : IsMap groups = by_domain-IsMap o.domain_registry o.pending_commutative [] tt in
    (
      (
        groups,
        once,
        λ k. elim (Bool-cases (takes_batches (lookup k o.domain_registry))) [
          | inl taken ↦
              rw taken (by_domain-taken o.domain_registry k o.pending_commutative [] taken)
          | inr left ↦ rw left (by_domain-left o.domain_registry k o.pending_commutative [] left)
        ],
        apply_batches-field groups o.field [] 0,
        λ k.
            let q = apply_batches-Queued k groups o.field [] 0 once in
            subst (Outcome k groups o.field) (sym q.1) q.2,
      ),
      synthesize_batches_count o,
    )
