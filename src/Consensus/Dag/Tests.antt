-- ===== src/Consensus/Dag/Tests.antt =====
-- Runs and instances for src/consensus/dag.rs.
use fluidic_node.Prelude.{
  ℕ, suc, zero, ◌+◌, ◌≤◌, ◌≡◌, ◌≢◌, ◌⊎◌, inl, inr, ◌↔◌, refl, true, false, List, [], ◌∷◌, none,
  some, arith, ok, err, get_elem?, nat_eq, list_eq,
}
use fluidic_node.Prelude.Map.{Map, contains_key}
use fluidic_node.Crypto.Signatures.{Ed25519}
use fluidic_node.Crypto.VectorClock.{VectorClock, get, happened_before, concurrent_with}
use fluidic_node.Crypto.Shift.Stateful.{StatefulShift, hash}
use fluidic_node.Consensus.Dag.{
  VectorClockDag, DagNode, DagError, accepted, rejected, node_of, insert, shift_status,
  promote_to_finalized, promoted, account_tip,
}
use fluidic_node.Consensus.Dag.Order.{
  pick_minimal_ready, pick_from, topological_order, ordered, exhausted, in_degrees, count_children,
  initial_ready, order_loop, release, swap_remove,
}
use fluidic_node.Consensus.Dag.Balances.{apply_ordered, apply_shifts, applied}
use fluidic_node.Consensus.Dag.Conservation.{total, apply_ordered-conserves}
use fluidic_node.Consensus.Dag.Lifecycle.{insert-shift_status}
use fluidic_node.Consensus.Dag.Causality.{validate_or_derive, validate_or_derive_iff}
use fluidic_node.Consensus.Dag.Picking.{pick_minimal_ready_least}
use fluidic_node.Consensus.Dag.Termination.{topological_order-ends}

abbrev shift : ℕ → ℕ → ℕ → VectorClock → List ℕ → StatefulShift
shift sender to amount c ps = record {
  domain = 1;
  sender = sender;
  to = to;
  amount = amount;
  vector_clock = c;
  predecessors = ps;
  nonce = 1;
  timestamp_ns = 0;
  first_seen_at_ns = 0;
  signature = [];
}

abbrev first : DagNode
first = record (node_of 30 (shift 1 2 5 ((1, 1) ∷ []) []) 4 3) { children = 40 ∷ [] }

abbrev second : DagNode
second = node_of 40 (shift 2 1 3 ((1, 1) ∷ (2, 1) ∷ []) (30 ∷ [])) 5 3

abbrev chain : VectorClockDag
chain = record {
  nodes = (30, first) ∷ (40, second) ∷ [];
  roots = 30 ∷ [];
  tips = (1, 30) ∷ (2, 40) ∷ [];
  balances = (1, 9) ∷ [];
  refused = [];
  max_clock = (1, 1) ∷ (2, 1) ∷ [];
  account_tips = (1, (1, 1) ∷ []) ∷ (2, (1, 1) ∷ (2, 1) ∷ []) ∷ [];
}

chain-topological_order : topological_order chain ≡ ordered (30 ∷ 40 ∷ [])
unfolding topological_order in_degrees count_children initial_ready order_loop release swap_remove
    pick_minimal_ready pick_from
chain-topological_order = refl

chain_applied : apply_ordered chain ≡ applied ((1, 7) ∷ (2, 2) ∷ [])
unfolding apply_ordered apply_shifts topological_order in_degrees count_children initial_ready
    order_loop release swap_remove pick_minimal_ready pick_from
chain_applied = refl

apply_ordered-conserves_example : total ((1, 7) ∷ (2, 2) ∷ []) ≡ total chain.balances
apply_ordered-conserves_example =
    apply_ordered-conserves chain ((1, 7) ∷ (2, 2) ∷ []) (omega arith) chain_applied

topological_order-ends_example : topological_order chain ≢ exhausted
topological_order-ends_example = topological_order-ends chain

one_promoted : (promote_to_finalized 7 chain).1 ≡ 1
unfolding promote_to_finalized promoted
one_promoted = refl

-- A signature scheme in which the number 1 signs everything, and a hash that reads the first byte
-- of the signature.
abbrev toy : Ed25519
toy = record {
  VerifyingKey = ℕ;
  Signature = ℕ;
  from_slice = λ b. elim b [ [] ↦ none | x ∷ _ ↦ some x ];
  as_bytes = λ k. k ∷ [];
  from_bytes = λ b. elim b [ [] ↦ none | x ∷ _ ↦ some x ];
  verify = λ k _ s. elim s [ suc zero ↦ true | _ ↦ false ];
}

abbrev third : StatefulShift
third = record (shift 1 3 2 ((1, 2) ∷ []) (30 ∷ [])) { signature = 1 ∷ [] }

insert-shift_status_example :
    let h : ℕ = hash (λ _. 50) third in
    let (d', r) = insert toy (λ _. 50) third 1 6 3 chain in
    (((r ≡ ok h) × (contains_key h chain.nodes ≡ true) × (d' ≡ chain))
      ⊎ ((r ≡ ok h) × (contains_key h chain.nodes ≡ false) × (shift_status h d' ≡ some accepted))
      ⊎ ((e : DagError) × (r ≡ err e)
          × (d'.nodes ≡ chain.nodes)
          × (contains_key h chain.nodes ≡ false → shift_status h d' ≡ some (rejected e))))
    × ((j : ℕ) → j ≢ h → shift_status j d' ≡ shift_status j chain)
insert-shift_status_example = insert-shift_status toy (λ _. 50) third 1 6 3 chain

validate_or_derive_iff_example :
    (validate_or_derive 1 (some ((1, 2) ∷ (2, 1) ∷ [])) chain ≡ ok ((1, 2) ∷ (2, 1) ∷ [])) ↔ (
      (get ((1, 2) ∷ (2, 1) ∷ []) 1 ≡ get (account_tip 1 chain) 1 + 1)
      × ((k : ℕ) → k ≢ 1 → get ((1, 2) ∷ (2, 1) ∷ []) k ≤ get chain.max_clock k))
unfolding account_tip
validate_or_derive_iff_example =
    validate_or_derive_iff 1 ((1, 2) ∷ (2, 1) ∷ []) chain (refl, (refl, tt)) (omega arith)

abbrev spread : Map ℕ DagNode
spread =
    (30, node_of 30 (shift 1 2 5 ((1, 1) ∷ []) []) 4 3)
    ∷ (20, node_of 20 (shift 2 2 5 ((2, 1) ∷ []) []) 4 3)
    ∷ (10, node_of 10 (shift 3 2 5 ((1, 2) ∷ []) []) 4 3)
    ∷ []

-- 30 causally precedes 10, and yet 10 is picked, past the concurrent 20
picks_later :
    (pick_minimal_ready spread (30 ∷ 20 ∷ 10 ∷ []) ≡ some 2)
    × (happened_before ((1, 1) ∷ []) ((1, 2) ∷ []) ≡ true)
unfolding pick_minimal_ready pick_from happened_before concurrent_with
picks_later = (refl, refl)

pick_minimal_ready_least_example :
    (j : ℕ) × (pick_minimal_ready spread (10 ∷ 30 ∷ []) ≡ some j)
    × (get_elem? {A = ℕ} (10 ∷ 30 ∷ []) j ≡ some 30)
unfolding happened_before
pick_minimal_ready_least_example =
    pick_minimal_ready_least spread 30 ((1, 1) ∷ []) (10 ∷ 30 ∷ []) (refl, tt) refl
      (inr ((1, 2) ∷ [], refl, (refl, tt), refl), (inl refl, tt)) (inr (inl refl))
