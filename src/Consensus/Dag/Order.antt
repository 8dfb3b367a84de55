-- ===== src/Consensus/Dag/Order.antt =====
-- `topological_order` and `pick_minimal_ready` of src/consensus/dag.rs. `none` is a panic: a lookup
-- that the code unwraps, or a subtraction below 0.
use fluidic_node.Prelude.{
  ℕ, zero, suc, ◌+◌, Bool, true, false, List, [], ◌∷◌, ◌++◌, Option, none, some, if◌then◌else◌, ltb,
  nat_beq, nat_eq, length, set, get_elem?,
}
use fluidic_node.Prelude.Map.{Map, lookup, update, unwrap_or, sum_by, insert as map_insert}
use fluidic_node.Crypto.VectorClock.{VectorClock, happened_before, concurrent_with}
use fluidic_node.Consensus.Dag.{VectorClockDag, DagNode, DagError, causal_cycle}

abbrev pub clock_of : Map ℕ DagNode → ℕ → Option VectorClock
clock_of nodes h = elim (lookup h nodes) [ none ↦ none | some n ↦ some n.shift.vector_clock ]

-- Does the candidate with clock `c` replace the best one so far?
abbrev pub replaces : ℕ → VectorClock → ℕ → VectorClock → Bool
replaces h c best best_clock =
    if happened_before c best_clock
    then true
    else if concurrent_with c best_clock
    then ltb h best
    else false

-- The `for` over the ready hashes from index `i` on, with the best index, hash and clock so far.
unfoldable pub pick_from : Map ℕ DagNode → ℕ → ℕ → ℕ → VectorClock → List ℕ → Option ℕ
pick_from nodes i best_idx best_hash best_clock [] = some best_idx
pick_from nodes i best_idx best_hash best_clock (h ∷ hs) = elim (clock_of nodes h) [
  | none ↦ none
  | some c ↦
      if replaces h c best_hash best_clock
      then pick_from nodes (suc i) i h c hs
      else pick_from nodes (suc i) best_idx best_hash best_clock hs
]

unfoldable pub pick_minimal_ready : Map ℕ DagNode → List ℕ → Option ℕ
pick_minimal_ready nodes [] = none
pick_minimal_ready nodes (h ∷ hs) = elim (clock_of nodes h) [
  | none ↦ none
  | some c ↦ pick_from nodes 1 0 h c hs
]

-- What `swap_remove` leaves: the last element takes the place of the removed one.
abbrev pub last_or : List ℕ → ℕ → ℕ
last_or [] x = x
last_or (y ∷ xs) x = last_or xs y

abbrev pub init : List ℕ → List ℕ
init [] = []
init (x ∷ []) = []
init (x ∷ (y ∷ xs)) = x ∷ init (y ∷ xs)

unfoldable pub swap_remove : ℕ → List ℕ → List ℕ
swap_remove i xs = init (set xs i (last_or xs 0))

abbrev pub count_child : ℕ → Map ℕ ℕ → Map ℕ ℕ
count_child c deg = update c 0 suc deg

unfoldable pub count_children : List ℕ → Map ℕ ℕ → Map ℕ ℕ
count_children [] deg = deg
count_children (c ∷ cs) deg = count_children cs (count_child c deg)

unfoldable pub in_degrees : Map ℕ DagNode → Map ℕ ℕ → Map ℕ ℕ
in_degrees [] deg = deg
in_degrees ((h, n) ∷ m) deg = in_degrees m (count_children n.children (update h 0 (λ x. x) deg))

unfoldable pub initial_ready : List ℕ → Map ℕ ℕ → List ℕ
initial_ready [] deg = []
initial_ready (h ∷ hs) deg =
    if nat_beq (unwrap_or (lookup h deg) 0) 0
    then h ∷ initial_ready hs deg
    else initial_ready hs deg

-- The `for` over the children of the node that was put in order.
unfoldable pub release : List ℕ → Map ℕ ℕ → List ℕ → Option (Map ℕ ℕ × List ℕ)
release [] deg ready = some (deg, ready)
release (c ∷ cs) deg ready = elim (lookup c deg) [
  | none ↦ none
  | some zero ↦ none
  | some (suc x) ↦
      release cs (map_insert c x deg) (if nat_beq x 0 then ready ++ (c ∷ []) else ready)
]

pub data Loop : Type 0 where
  panicked out_of_fuel : Loop
  done : List ℕ → Loop

-- The `while` over the ready hashes, with a bound on its rounds.
unfoldable pub order_loop : ℕ → Map ℕ DagNode → Map ℕ ℕ → List ℕ → List ℕ → Loop
order_loop fuel nodes deg [] order = done order
order_loop zero nodes deg (h ∷ hs) order = out_of_fuel
order_loop (suc fuel) nodes deg (h ∷ hs) order = elim (pick_minimal_ready nodes (h ∷ hs)) [
  | none ↦ panicked
  | some idx ↦ elim (get_elem? (h ∷ hs) idx) [
    | none ↦ panicked
    | some best ↦
        let ready : List ℕ = swap_remove idx (h ∷ hs) in
        elim (lookup best nodes) [
          | none ↦ order_loop fuel nodes deg ready (order ++ (best ∷ []))
          | some n ↦ elim (release n.children deg ready) [
            | none ↦ panicked
            | some (deg', ready') ↦ order_loop fuel nodes deg' ready' (order ++ (best ∷ []))
          ]
        ]
  ]
]

-- One round for each ready hash, and one for each edge that can make another hash ready.
abbrev pub fuel_for : Map ℕ ℕ → List ℕ → ℕ
fuel_for deg ready = length ready + sum_by (λ x. x) deg

pub data Ordering : Type 0 where
  panics exhausted : Ordering
  cycle : DagError → Ordering
  ordered : List ℕ → Ordering

unfoldable pub topological_order : VectorClockDag → Ordering
topological_order d =
    let deg = in_degrees d.nodes [] in
    let ready = initial_ready d.roots deg in
    elim (order_loop (fuel_for deg ready) d.nodes deg ready []) [
      | panicked ↦ panics
      | out_of_fuel ↦ exhausted
      | done order ↦
          if nat_beq (length order) (length d.nodes) then ordered order else cycle (causal_cycle 0)
    ]
