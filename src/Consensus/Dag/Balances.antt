-- ===== src/Consensus/Dag/Balances.antt =====
-- `apply_ordered` of src/consensus/dag.rs.
use fluidic_node.Prelude.{
  ℕ, ◌-◌, List, [], ◌∷◌, ◌++◌, Option, none, some, if◌then◌else◌, ltb, add_u128, nat_eq,
}
use fluidic_node.Prelude.Map.{Map, lookup, update, modify, unwrap_or, is_none}
use fluidic_node.Crypto.Shift.Stateful.{StatefulShift}
use fluidic_node.Consensus.Dag.{VectorClockDag, DagNode, DagError, insufficient_balance}
use fluidic_node.Consensus.Dag.Order.{
  topological_order, Ordering, panics, exhausted, cycle, ordered,
}

-- `*simulated.get_mut(from).unwrap() -= amount`, then `*simulated.entry(to).or_insert(0) += amount`
abbrev pub transfer : StatefulShift → Map ℕ ℕ → Map ℕ ℕ
transfer s m = update s.to 0 (λ x. add_u128 x s.amount) (modify s.sender (λ x. x - s.amount) m)

-- The `for` over the order; `none` is a panic.
unfoldable pub apply_shifts :
    Map ℕ DagNode → List ℕ → Map ℕ ℕ → List DagError → Option (Map ℕ ℕ × List DagError)
apply_shifts nodes [] simulated errors = some (simulated, errors)
apply_shifts nodes (h ∷ hs) simulated errors = elim (lookup h nodes) [
  | none ↦ none
  | some n ↦
      if ltb (unwrap_or (lookup n.shift.sender simulated) 0) n.shift.amount
      then apply_shifts nodes hs simulated (errors ++ (insufficient_balance h ∷ []))
      else if is_none (lookup n.shift.sender simulated)
      then none
      else apply_shifts nodes hs (transfer n.shift simulated) errors
]

pub data Applied : Type 0 where
  panicking unordered : Applied
  refused : List DagError → Applied
  applied : Map ℕ ℕ → Applied

abbrev pub result_of : Option (Map ℕ ℕ × List DagError) → Applied
result_of none = panicking
result_of (some (simulated, [])) = applied simulated
result_of (some (simulated, e ∷ errors)) = refused (e ∷ errors)

abbrev pub apply_order : VectorClockDag → Ordering → Applied
apply_order d panics = panicking
apply_order d exhausted = unordered
apply_order d (cycle e) = refused (e ∷ [])
apply_order d (ordered order) = result_of (apply_shifts d.nodes order d.balances [])

unfoldable pub apply_ordered : VectorClockDag → Applied
apply_ordered d = apply_order d (topological_order d)
