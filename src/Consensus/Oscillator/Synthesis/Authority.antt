-- ===== src/Consensus/Oscillator/Synthesis/Authority.antt =====
-- What every shift has passed that the synthesis of src/consensus/oscillator.rs applies.
use fluidic_node.Prelude.{
  ℕ, ◌≡◌, ◌⊎◌, inl, inr, ap, List, [], ◌∷◌, ◌++◌, none, some, nat_eq, Mem, Option-cases,
  none_ne_some,
}
use fluidic_node.Prelude.Map.{Map, lookup}
use fluidic_node.Crypto.Signatures.{Ed25519}
use fluidic_node.Consensus.Dag.{DagNode}
use fluidic_node.Consensus.Oscillator.{Oscillator}
use fluidic_node.Consensus.Oscillator.Synthesis.{Settlement, apply_node, apply_nodes, unsettled}
use fluidic_node.Consensus.Oscillator.Synthesis.Steps.{some_inj, Signed, Cleared, apply_node_cases}

Mem-snoc : (h g : ℕ) (xs : List ℕ) → Mem h (xs ++ (g ∷ [])) → Mem h xs ⊎ (h ≡ g)
Mem-snoc h g [] (inl e) = inr e
Mem-snoc h g [] (inr m) = absurd m
Mem-snoc h g (x ∷ xs) (inl e) = inl (inl e)
Mem-snoc h g (x ∷ xs) (inr m) = elim (Mem-snoc h g xs m) [ inl m ↦ inl (inr m) | inr e ↦ inr e ]

-- the node of a hash, signed and cleared
abbrev pub Authorized : (ed : Ed25519) → Map ℕ ed.VerifyingKey → Oscillator → ℕ → Type 0
Authorized ed keys o h =
    (n : DagNode) × (lookup h o.dag.nodes ≡ some n) × Signed ed keys n × Cleared n o

module _ (ed : Ed25519) (keys : Map ℕ ed.VerifyingKey) where
  apply_node-hashes :
      (h g : ℕ) (n : DagNode) (o : Oscillator) (s s' : Settlement)
      → lookup h o.dag.nodes ≡ some n
      → apply_node ed keys h n o s ≡ some s'
      → Mem g s'.hashes
      → Mem g s.hashes ⊎ Authorized ed keys o g
  apply_node-hashes h g n o s s' there e m = elim (apply_node_cases ed keys h n o s s' e) [
    | inl kept ↦ inl (rw kept.hashes at m)
    | inr (signed, cleared, moved) ↦
        let m' : Mem g (s.hashes ++ (h ∷ [])) = rw (ap (λ x. x.hashes) moved.outcome) at m in
        elim (Mem-snoc g h s.hashes m') [
          | inl old ↦ inl old
          | inr same ↦ inr (rw same (n, there, signed, cleared))
        ]
  ]

  pub apply_nodes-hashes :
      (hs : List ℕ) (g : ℕ) (o : Oscillator) (s s' : Settlement)
      → apply_nodes ed keys hs o s ≡ some s'
      → Mem g s'.hashes
      → Mem g s.hashes ⊎ Authorized ed keys o g
  unfolding apply_nodes
  apply_nodes-hashes [] g o s s' e m = inl (rw (some_inj s s' e) at m)
  apply_nodes-hashes (h ∷ hs) g o s s' e m = elim (Option-cases (lookup h o.dag.nodes)) [
    | inl gone ↦ let bad : none ≡ some s' = rw (gone, apply_nodes) at e in absurd (none_ne_some bad)
    | inr (n, there) ↦ elim (Option-cases (apply_node ed keys h n o s)) [
      | inl panics ↦
          let bad : none ≡ some s' = rw (there, panics, apply_nodes) at e in
          absurd (none_ne_some bad)
      | inr (t, stepped) ↦
          elim (apply_nodes-hashes hs g o t s' (rw (there, stepped, apply_nodes) at e) m) [
            | inr a ↦ inr a
            | inl old ↦ apply_node-hashes h g n o s t there stepped old
          ]
    ]
  ]

  -- Every shift that the loop applies has a node in the DAG that is not rejected and was not applied
  -- before; it is signed by the key that is registered for its sender, its domain is known, and where
  -- that domain is strict a quorum has certified the tick at which it was inserted.
  pub apply_nodes-Authorized :
      (hs : List ℕ) (g : ℕ) (o : Oscillator) (s : Settlement)
      → apply_nodes ed keys hs o (unsettled o) ≡ some s
      → Mem g s.hashes
      → Authorized ed keys o g
  apply_nodes-Authorized hs g o s e m = elim (apply_nodes-hashes hs g o (unsettled o) s e m) [
    | inl old ↦ absurd old
    | inr a ↦ a
  ]
