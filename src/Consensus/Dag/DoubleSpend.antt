-- ===== src/Consensus/Dag/DoubleSpend.antt =====
-- `detect_double_spends` and `finalized_shifts_since` of src/consensus/dag.rs. A hash is carried with
-- its node, which the code looks up again.
pub mod Complete
mod Tests
use fluidic_node.Prelude.{
  ℕ, Bool, true, false, ◌&&◌, ◌||◌, List, [], ◌∷◌, ◌++◌, none, some, if◌then◌else◌, ltb, leb,
  nat_beq, add_u128, nat_eq,
}
use fluidic_node.Prelude.Map.{Map, lookup, update, unwrap_or}
use fluidic_node.Crypto.VectorClock.{concurrent_with}
use fluidic_node.Consensus.Dag.{
  VectorClockDag, DagNode, DagError, double_spend, accepted, finalized, rejected,
}

abbrev pub Entry : Type 0
Entry = ℕ × DagNode

-- `by_sender.entry(from).or_default().push(h)`, over the nodes
unfoldable pub by_sender : Map ℕ DagNode → Map ℕ (List Entry) → Map ℕ (List Entry)
by_sender [] groups = groups
by_sender ((h, n) ∷ m) groups =
    by_sender m (update n.shift.sender [] (λ es. es ++ ((h, n) ∷ [])) groups)

-- the order of the keys `(inserted_at_tick, hash)`
abbrev pub earlier : Entry → Entry → Bool
earlier e f =
    ltb e.1.inserted_at_tick f.1.inserted_at_tick
    || (nat_beq e.1.inserted_at_tick f.1.inserted_at_tick && leb e.0 f.0)

unfoldable pub place_by_key : Entry → List Entry → List Entry
place_by_key e [] = e ∷ []
place_by_key e (f ∷ es) = if earlier e f then e ∷ f ∷ es else f ∷ place_by_key e es

-- `sort_by_key`
unfoldable pub sort_by_key : List Entry → List Entry
sort_by_key [] = []
sort_by_key (e ∷ es) = place_by_key e (sort_by_key es)

-- The inner `for`, from what is spent so far on.
unfoldable pub overspends : DagNode → ℕ → ℕ → List Entry → List DagError
overspends n1 balance spent [] = []
overspends n1 balance spent ((h2, n2) ∷ es) =
    if concurrent_with n1.shift.vector_clock n2.shift.vector_clock
    then (let total : ℕ = add_u128 spent n2.shift.amount in
        let rest = overspends n1 balance total es in
        if ltb balance total then double_spend h2 ∷ rest else rest)
    else overspends n1 balance spent es

-- The outer `for` over one sender's entries.
unfoldable pub sender_violations : ℕ → List Entry → List DagError
sender_violations balance [] = []
sender_violations balance ((h1, n1) ∷ es) =
    overspends n1 balance n1.shift.amount es ++ sender_violations balance es

unfoldable pub violations : Map ℕ ℕ → Map ℕ (List Entry) → List DagError
violations balances [] = []
violations balances ((account, es) ∷ groups) =
    sender_violations (unwrap_or (lookup account balances) 0) (sort_by_key es)
    ++ violations balances groups

unfoldable pub detect_double_spends : VectorClockDag → List DagError
detect_double_spends d = violations d.balances (by_sender d.nodes [])

-- the test of `finalized_shifts_since`
abbrev pub finalized_since : ℕ → DagNode → Bool
finalized_since since n = elim n.status [
  | accepted ↦ false
  | rejected e ↦ false
  | finalized ↦ elim n.finalized_at_tick [ none ↦ false | some t ↦ leb since t ]
]

unfoldable pub finalized_in : ℕ → Map ℕ DagNode → List DagNode
finalized_in since [] = []
finalized_in since ((h, n) ∷ m) =
    if finalized_since since n then n ∷ finalized_in since m else finalized_in since m

unfoldable pub finalized_shifts_since : ℕ → VectorClockDag → List DagNode
finalized_shifts_since since d = finalized_in since d.nodes
