-- ===== src/Consensus/Dag/DoubleSpend/Tests.antt =====
-- Runs and instances for `detect_double_spends` of src/consensus/dag.rs.
use fluidic_node.Prelude.{ℕ, ◌+◌, ◌≤◌, ◌≡◌, refl, [], ◌∷◌, arith}
use fluidic_node.Crypto.VectorClock.{VectorClock, concurrent_with, happened_before}
use fluidic_node.Crypto.Shift.Stateful.{StatefulShift}
use fluidic_node.Consensus.Dag.{VectorClockDag, DagNode, node_of, double_spend}
use fluidic_node.Consensus.Dag.DoubleSpend.{
  by_sender, place_by_key, sort_by_key, overspends, sender_violations, violations,
  detect_double_spends, finalized_in, finalized_shifts_since,
}
use fluidic_node.Consensus.Dag.DoubleSpend.Complete.{detect_double_spends_none}

abbrev shift : ℕ → VectorClock → StatefulShift
shift amount c = record {
  domain = 1;
  sender = 1;
  to = 2;
  amount = amount;
  vector_clock = c;
  predecessors = [];
  nonce = 1;
  timestamp_ns = 0;
  first_seen_at_ns = 0;
  signature = [];
}

abbrev left : DagNode
left = node_of 30 (shift 5 ((1, 1) ∷ [])) 4 3

abbrev right : DagNode
right = node_of 40 (shift 3 ((2, 1) ∷ [])) 4 3

abbrev fork : ℕ → VectorClockDag
fork balance = record {
  nodes = (30, left) ∷ (40, right) ∷ [];
  roots = 30 ∷ 40 ∷ [];
  tips = (1, 40) ∷ [];
  balances = (1, balance) ∷ [];
  refused = [];
  max_clock = (1, 1) ∷ (2, 1) ∷ [];
  account_tips = (1, (1, 1) ∷ (2, 1) ∷ []) ∷ [];
}

fork_covered : detect_double_spends (fork 8) ≡ []
unfolding detect_double_spends violations sender_violations overspends by_sender sort_by_key
    place_by_key concurrent_with happened_before
fork_covered = refl

-- Once the balance has paid for both, the second is reported.
fork_spent : detect_double_spends (fork 0) ≡ double_spend 40 ∷ []
unfolding detect_double_spends violations sender_violations overspends by_sender sort_by_key
    place_by_key concurrent_with happened_before
fork_spent = refl

fork_unfinalized : finalized_shifts_since 0 (fork 8) ≡ []
unfolding finalized_shifts_since finalized_in
fork_unfinalized = refl

detect_double_spends_none_example : 5 + 3 ≤ 8
unfolding concurrent_with happened_before
detect_double_spends_none_example =
    detect_double_spends_none (fork 8) 30 40 left right (omega arith) fork_covered refl refl
      (λ e. ground (arith, e)) refl refl
