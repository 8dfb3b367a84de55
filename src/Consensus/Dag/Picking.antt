-- ===== src/Consensus/Dag/Picking.antt =====
-- What `pick_minimal_ready` of src/consensus/dag.rs picks.
use fluidic_node.Prelude.{
  ℕ, suc, ◌+◌, ◌≡◌, ◌∙◌, ap, sym, Option, get_elem?, ◌⊎◌, refl, true, false, List, [], ◌∷◌, some,
  Bool-cases, inl, inr, arith, nat_eq, All, Mem,
}
use fluidic_node.Prelude.Map.{Map, IsMap}
use fluidic_node.Crypto.VectorClock.{VectorClock, happened_before, concurrent_with}
use fluidic_node.Crypto.VectorClock.Order.{happened_before_order}
use fluidic_node.Consensus.Dag.{DagNode}
use fluidic_node.Consensus.Dag.Order.{pick_from, pick_minimal_ready, clock_of, replaces}

-- The hash whose clock is `c` causally precedes another.
abbrev pub PrecededBy : Map ℕ DagNode → ℕ → VectorClock → ℕ → Type 0
PrecededBy nodes m c h =
    (h ≡ m)
    ⊎ ((other : VectorClock) × (clock_of nodes h ≡ some other)
        × IsMap other
        × (happened_before c other ≡ true))

not_replaced :
    (h m : ℕ) (c other : VectorClock)
    → IsMap c
    → IsMap other
    → happened_before c other ≡ true
    → (replaces h other m c ≡ false) × (replaces m c h other ≡ true)
unfolding concurrent_with
not_replaced h m c other u v p =
    let back : happened_before other c ≡ false = (happened_before_order c other c u v u).1 p in
    ground arith

same_not_replaced : (m : ℕ) (c : VectorClock) → IsMap c → replaces m c m c ≡ false
same_not_replaced m c u = elim (Bool-cases (happened_before c c)) [
  | inl p ↦
      let q : happened_before c c ≡ false = (happened_before_order c c c u u u).1 p in
      absurd (ground arith)
  | inr p ↦ ground arith
]

pick_keeps :
    (nodes : Map ℕ DagNode) (m : ℕ) (c : VectorClock) (i idx : ℕ) (hs : List ℕ)
    → IsMap c
    → clock_of nodes m ≡ some c
    → All (PrecededBy nodes m c) hs
    → pick_from nodes i idx m c hs ≡ some idx
unfolding pick_from
pick_keeps nodes m c i idx [] u e a = refl
pick_keeps nodes m c i idx (h ∷ hs) u e a =
    let rest = pick_keeps nodes m c (suc i) idx hs u e a.1 in
    elim a.0 [
      | inl same ↦
          let eh : clock_of nodes h ≡ some c = rw same e in
          let stay : replaces h c m c ≡ false = rw same (same_not_replaced m c u) in
          rw (pick_from, eh, stay) rest
      | inr (other, eo, v, p) ↦ rw (pick_from, eo, (not_replaced h m c other u v p).0) rest
    ]

-- an index from `i` on at which `m` stands in a list
abbrev Placed : ℕ → ℕ → List ℕ → Option ℕ → Type 0
Placed i m hs picked = (j : ℕ) × (picked ≡ some (i + j)) × (get_elem? hs j ≡ some m)

here :
    (i : ℕ) (hs : List ℕ) {m h : ℕ} {picked : Option ℕ}
    → h ≡ m
    → picked ≡ some i
    → Placed i m (h ∷ hs) picked
here i hs same e = (0, e ∙ ap some (omega arith), ap some same)

further :
    (i h : ℕ) (hs : List ℕ) {m : ℕ} {picked : Option ℕ}
    → Placed (suc i) m hs picked
    → Placed i m (h ∷ hs) picked
further i h hs (j, e, there) = (suc j, e ∙ ap some (omega arith), there)

pick_reaches :
    (nodes : Map ℕ DagNode) (m : ℕ) (c : VectorClock) (i idx best : ℕ) (best_clock : VectorClock)
    (hs : List ℕ)
    → IsMap c
    → clock_of nodes m ≡ some c
    → IsMap best_clock
    → happened_before c best_clock ≡ true
    → All (PrecededBy nodes m c) hs
    → Mem m hs
    → Placed i m hs (pick_from nodes i idx best best_clock hs)
unfolding pick_from
pick_reaches nodes m c i idx best bc [] u e v p a k = absurd k
pick_reaches nodes m c i idx best bc (h ∷ hs) u e v p a k = elim a.0 [
  | inl same ↦
      let eh : clock_of nodes h ≡ some c = rw same e in
      let take : replaces h c best bc ≡ true = (not_replaced best h c bc u v p).1 in
      here i hs same (rw (pick_from, eh, take, same) (pick_keeps nodes m c (suc i) i hs u e a.1))
  | inr (other, eo, w, q) ↦ elim k [
    | inl same ↦
        let eh : clock_of nodes h ≡ some c = rw (← same) e in
        let take : replaces h c best bc ≡ true = (not_replaced best h c bc u v p).1 in
        here i hs (sym same)
          (rw (pick_from, eh, take, ← same) (pick_keeps nodes m c (suc i) i hs u e a.1))
    | inr later ↦ elim (Bool-cases (replaces h other best bc)) [
      | inl moved ↦ further i h hs (
          rw (pick_from, eo, moved) (pick_reaches nodes m c (suc i) i h other hs u e w q a.1 later))
      | inr kept ↦ further i h hs (
          rw (pick_from, eo, kept)
            (pick_reaches nodes m c (suc i) idx best bc hs u e v p a.1 later))
    ]
  ]
]

-- When a ready hash has a clock that causally precedes the clocks of all other ready hashes, an index
-- at which that hash stands among the ready ones is returned. Clocks list each node once.
pub pick_minimal_ready_least :
    (nodes : Map ℕ DagNode) (m : ℕ) (c : VectorClock) (ready : List ℕ)
    → IsMap c
    → clock_of nodes m ≡ some c
    → All (PrecededBy nodes m c) ready
    → Mem m ready
    → (j : ℕ) × (pick_minimal_ready nodes ready ≡ some j) × (get_elem? ready j ≡ some m)
unfolding pick_minimal_ready
pick_minimal_ready_least nodes m c [] u e a k = absurd k
pick_minimal_ready_least nodes m c (h ∷ hs) u e a k = elim a.0 [
  | inl same ↦
      let eh : clock_of nodes h ≡ some c = rw same e in
      (0, rw (pick_minimal_ready, eh, same) (pick_keeps nodes m c 1 0 hs u e a.1), ap some same)
  | inr (other, eo, w, q) ↦ elim k [
    | inl same ↦
        let eh : clock_of nodes h ≡ some c = rw (← same) e in
        (
          0,
          rw (pick_minimal_ready, eh, ← same) (pick_keeps nodes m c 1 0 hs u e a.1),
          ap some (sym same),
        )
    | inr later ↦
        let (j, found, there) = pick_reaches nodes m c 1 0 h other hs u e w q a.1 later in
        (suc j, rw (pick_minimal_ready, eo) (found ∙ ap some (omega arith)), there)
  ]
]
