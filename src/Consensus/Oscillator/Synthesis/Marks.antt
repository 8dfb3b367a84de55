-- ===== src/Consensus/Oscillator/Synthesis/Marks.antt =====
-- The marks on applied shifts through the steps of src/consensus/oscillator.rs.
use fluidic_node.Prelude.{
  ℕ, ◌≡◌, ◌∙◌, inl, inr, refl, true, false, List, [], ◌∷◌, some, nat_beq, nat_eq, arith, Mem,
  Bool-cases, Option-cases, none_ne_some,
}
use fluidic_node.Prelude.Map.{
  Map, lookup, modify, contains_key, map_values, lookup-insert, lookup-modify,
}
use fluidic_node.Prelude.Bytes.{Bytes}
use fluidic_node.Crypto.Signatures.{Ed25519}
use fluidic_node.Crypto.Shift.Stateful.{StatefulShift, hash, verify_signature}
use fluidic_node.Consensus.Domain.{DomainPolicy}
use fluidic_node.Consensus.Dag.{
  VectorClockDag, DagNode, DagError, node_of, place, add_child, missing, finalize, is_due,
  promote_to_finalized, set_insert, double_spend, missing_predecessor, invalid_signature,
  insufficient_balance, causal_cycle, insert as dag_insert,
}
use fluidic_node.Consensus.Dag.DoubleSpend.{detect_double_spends}
use fluidic_node.Consensus.Oscillator.{Oscillator}
use fluidic_node.Consensus.Oscillator.Synthesis.{
  insert_pending, mark, mark_double_spends, order_pending, mark_applied,
}

-- the node of the hash is marked as applied
abbrev pub Applied : ℕ → Map ℕ DagNode → Type 0
Applied h nodes = (n : DagNode) × (lookup h nodes ≡ some n) × (n.applied ≡ true)

-- A write that keeps the mark keeps it for every hash.
Applied-modify :
    (h g : ℕ) (f : DagNode → DagNode) (nodes : Map ℕ DagNode)
    → ((n : DagNode) → n.applied ≡ true → (f n).applied ≡ true)
    → Applied h nodes
    → Applied h (modify g f nodes)
Applied-modify h g f nodes keeps (n, there, done) =
    let read = lookup-modify h g f nodes in
    elim (Bool-cases (nat_beq g h)) [
      | inl own ↦ (f n, read ∙ rw (own, there) refl, keeps n done)
      | inr other ↦ (n, read ∙ rw (other, there) refl, done)
    ]

Applied-map_values :
    (h : ℕ) (f : DagNode → DagNode) (nodes : Map ℕ DagNode)
    → ((n : DagNode) → n.applied ≡ true → (f n).applied ≡ true)
    → Applied h nodes
    → Applied h (map_values f nodes)
Applied-map_values h f [] keeps (n, there, done) = absurd (none_ne_some there)
Applied-map_values h f ((k, x) ∷ nodes) keeps (n, there, done) = elim (Bool-cases (nat_beq k h)) [
  | inl own ↦ rw own (f n, ground arith, keeps n done)
  | inr other ↦ rw other (Applied-map_values h f nodes keeps (n, rw other at there, done))
]

Applied-add_child :
    (h g : ℕ) (ps : List ℕ) (nodes : Map ℕ DagNode)
    → Applied h nodes
    → Applied h (add_child g ps nodes)
unfolding add_child
Applied-add_child h g [] nodes a = a
Applied-add_child h g (p ∷ ps) nodes a =
    let f : DagNode → DagNode = λ n. record n { children = set_insert g n.children } in
    Applied-add_child h g ps (modify p f nodes) (Applied-modify h p f nodes (λ n done. done) a)

Applied-mark_double_spends :
    (h : ℕ) (es : List DagError) (nodes : Map ℕ DagNode)
    → Applied h nodes
    → Applied h (mark_double_spends es nodes)
unfolding mark_double_spends
Applied-mark_double_spends h [] nodes a = a
Applied-mark_double_spends h (e ∷ es) nodes a =
    Applied-mark_double_spends h es (mark e nodes) (marked e a)
  where
    marked : (e : DagError) → Applied h nodes → Applied h (mark e nodes)
    marked (double_spend g) a = Applied-modify h g _ nodes (λ n done. done) a
    marked (missing_predecessor g) a = a
    marked (invalid_signature g) a = a
    marked (insufficient_balance g) a = a
    marked (causal_cycle g) a = a

Applied-insert_dag :
    (ed : Ed25519) (blake3 : Bytes → ℕ) (s : StatefulShift) (key : ed.VerifyingKey)
    (now depth h : ℕ) (d : VectorClockDag)
    → Applied h d.nodes
    → Applied h (dag_insert ed blake3 s key now depth d).0.nodes
unfolding dag_insert place
Applied-insert_dag ed blake3 s key now depth h d a =
    let g : ℕ = hash blake3 s in
    elim (Bool-cases (verify_signature ed key s)) [
      | inr forged ↦ rw forged a
      | inl signed ↦ elim (Bool-cases (contains_key g d.nodes)) [
        | inl known ↦ rw (signed, known) a
        | inr fresh ↦ elim (Option-cases (missing s.predecessors d.nodes)) [
          | inr (p, lacks) ↦ rw (signed, fresh, lacks) a
          | inl complete ↦ rw (signed, fresh, complete) (placed fresh)
        ]
      ]
    ]
  where
    placed :
        contains_key (hash blake3 s) d.nodes ≡ false
        → Applied h (place (hash blake3 s) s now depth d).nodes
    placed fresh =
        let g : ℕ = hash blake3 s in
        let nodes = add_child g s.predecessors d.nodes in
        let (n, there, done) = Applied-add_child h g s.predecessors d.nodes a in
        let apart : nat_beq g h ≡ false = ground (arith, a.1) in
        (n, lookup-insert h g (node_of g s now depth) nodes ∙ rw apart there, done)

Applied-insert_pending :
    (ed : Ed25519) (blake3 : Bytes → ℕ) (keys : Map ℕ ed.VerifyingKey)
    (registry : Map ℕ DomainPolicy) (tick h : ℕ) (shifts : List StatefulShift) (d : VectorClockDag)
    (errors : List DagError)
    → Applied h d.nodes
    → Applied h (insert_pending ed blake3 keys registry tick shifts d errors).0.nodes
unfolding insert_pending
Applied-insert_pending ed blake3 keys registry tick h [] d errors a = a
Applied-insert_pending ed blake3 keys registry tick h (s ∷ shifts) d errors a =
    elim (Option-cases (lookup s.sender keys)) [
      | inl gone ↦
          rw (insert_pending, gone)
            (Applied-insert_pending ed blake3 keys registry tick h shifts d _ a)
      | inr (key, there) ↦
          rw (insert_pending, there)
            (Applied-insert_pending ed blake3 keys registry tick h shifts _ _
              (Applied-insert_dag ed blake3 s key tick _ h d a))
    ]

pub Applied-order_pending :
    (ed : Ed25519) (blake3 : Bytes → ℕ) (keys : Map ℕ ed.VerifyingKey) (tick h : ℕ) (o : Oscillator)
    → Applied h o.dag.nodes
    → Applied h (order_pending ed blake3 keys tick o).0.dag.nodes
unfolding order_pending promote_to_finalized
Applied-order_pending ed blake3 keys tick h o a =
    let d = (insert_pending ed blake3 keys o.domain_registry tick o.pending_stateful o.dag []).0 in
    let entered =
      Applied-insert_pending ed blake3 keys o.domain_registry tick h o.pending_stateful o.dag []
        a in
    Applied-map_values h (finalize tick) (mark_double_spends (detect_double_spends d) d.nodes)
      (λ n done. elim (Bool-cases (is_due tick n)) [
        | inl due ↦ rw due done
        | inr early ↦ rw early done
      ])
      (Applied-mark_double_spends h (detect_double_spends d) d.nodes entered)

pub Applied-mark_applied :
    (h : ℕ) (hs : List ℕ) (nodes : Map ℕ DagNode)
    → Applied h nodes
    → Applied h (mark_applied hs nodes)
unfolding mark_applied
Applied-mark_applied h [] nodes a = a
Applied-mark_applied h (g ∷ hs) nodes a =
    let f : DagNode → DagNode = λ n. record n { applied = true } in
    Applied-mark_applied h hs (modify g f nodes) (Applied-modify h g f nodes (λ n done. refl) a)

pub mark_applied-Applied :
    (h : ℕ) (hs : List ℕ) (nodes : Map ℕ DagNode) (n : DagNode)
    → Mem h hs
    → lookup h nodes ≡ some n
    → Applied h (mark_applied hs nodes)
unfolding mark_applied
mark_applied-Applied h [] nodes n m there = absurd m
mark_applied-Applied h (g ∷ hs) nodes n m there =
    let f : DagNode → DagNode = λ n. record n { applied = true } in
    let read = lookup-modify h g f nodes in
    elim (Bool-cases (nat_beq g h)) [
      | inl own ↦
          Applied-mark_applied h hs (modify g f nodes) (f n, read ∙ rw (own, there) refl, refl)
      | inr other ↦ elim m [
        | inl same ↦ absurd (ground arith)
        | inr later ↦
            mark_applied-Applied h hs (modify g f nodes) n later (read ∙ rw (other, there) refl)
      ]
    ]
