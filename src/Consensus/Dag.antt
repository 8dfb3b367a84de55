-- ===== src/Consensus/Dag.antt =====
-- The causal DAG of stateful shifts, src/consensus/dag.rs. Hash maps are association lists, hash
-- sets are lists without repeats, and the field `rejected` is `refused`. The latency of a promotion, a
-- float for display, is left out.
pub mod Order
pub mod Balances
pub mod Lifecycle
pub mod Causality
pub mod Picking
pub mod Termination
pub mod DoubleSpend
pub mod Conservation
mod Tests
use fluidic_node.Prelude.{
  ℕ, ◌+◌, ◌≡◌, Bool, true, false, ◌&&◌, not, List, [], ◌∷◌, Option, none, some, if◌then◌else◌, ltb,
  leb, nat_beq, add_u64, saturating_sub, nat_eq, Result, ok, err,
}
use fluidic_node.Prelude.Map.{
  Map, lookup, update, modify, contains_key, unwrap_or, map_values, insert as map_insert,
}
use fluidic_node.Prelude.Bytes.{Bytes}
use fluidic_node.Crypto.Signatures.{Ed25519}
use fluidic_node.Crypto.VectorClock.{
  VectorClock, merge, get, tick, happened_before, new as empty_clock,
}
use fluidic_node.Crypto.Shift.Stateful.{StatefulShift, hash, verify_signature}

pub data DagError : Type 0 where
  missing_predecessor invalid_signature insufficient_balance double_spend causal_cycle :
      ℕ → DagError

pub data ShiftStatus : Type 0 where
  accepted finalized : ShiftStatus
  rejected : DagError → ShiftStatus

pub record DagNode : Type 0 where
  pub hash : ℕ
  pub shift : StatefulShift
  pub children : List ℕ
  pub inserted_at_tick : ℕ
  pub status : ShiftStatus
  pub finalization_depth : ℕ
  pub first_seen_at_ns : ℕ
  pub finalized_at_tick : Option ℕ
  pub applied : Bool

pub record VectorClockDag : Type 0 where
  pub nodes : Map ℕ DagNode
  pub roots : List ℕ
  pub tips : Map ℕ ℕ
  pub balances : Map ℕ ℕ
  pub refused : Map ℕ DagError
  pub max_clock : VectorClock
  pub account_tips : Map ℕ VectorClock

unfoldable pub new : VectorClockDag
new = record {
  nodes = [];
  roots = [];
  tips = [];
  balances = [];
  refused = [];
  max_clock = [];
  account_tips = [];
}

-- `HashSet::insert`
abbrev pub set_insert : ℕ → List ℕ → List ℕ
set_insert h [] = h ∷ []
set_insert h (j ∷ s) = if nat_beq j h then j ∷ s else j ∷ set_insert h s

-- The `for` that looks for a declared predecessor that the DAG lacks.
unfoldable pub missing : List ℕ → Map ℕ DagNode → Option ℕ
missing [] nodes = none
missing (p ∷ ps) nodes = if not (contains_key p nodes) then some p else missing ps nodes

-- The `for` that enters a new node with its predecessors.
unfoldable pub add_child : ℕ → List ℕ → Map ℕ DagNode → Map ℕ DagNode
add_child h [] nodes = nodes
add_child h (p ∷ ps) nodes =
    add_child h ps (modify p (λ n. record n { children = set_insert h n.children }) nodes)

abbrev pub node_of : ℕ → StatefulShift → ℕ → ℕ → DagNode
node_of h shift now depth = record {
  hash = h;
  shift = shift;
  children = [];
  inserted_at_tick = now;
  status = accepted;
  finalization_depth = depth;
  first_seen_at_ns = shift.first_seen_at_ns;
  finalized_at_tick = none;
  applied = false;
}

-- `entry(..).and_modify(merge).or_insert_with(clone)`
abbrev pub advanced : Option VectorClock → VectorClock → VectorClock
advanced none c = c
advanced (some old) c = merge old c

abbrev pub advance : ℕ → VectorClock → Map ℕ VectorClock → Map ℕ VectorClock
advance account c m = map_insert account (advanced (lookup account m) c) m

-- The sender's tip after its new node is in place.
abbrev pub new_tip : ℕ → StatefulShift → Map ℕ DagNode → Map ℕ ℕ → ℕ
new_tip h shift nodes tips =
    let sender_tip : ℕ = unwrap_or (lookup shift.sender tips) h in
    elim (lookup sender_tip nodes) [
      | none ↦ h
      | some existing ↦
          if happened_before existing.shift.vector_clock shift.vector_clock then h else sender_tip
    ]

-- `insert`, past its checks
unfoldable pub place : ℕ → StatefulShift → ℕ → ℕ → VectorClockDag → VectorClockDag
place h shift now depth d =
    let nodes = map_insert h (node_of h shift now depth) (add_child h shift.predecessors d.nodes) in
    record d {
      nodes = nodes;
      roots = elim shift.predecessors [ [] ↦ set_insert h d.roots | p ∷ ps ↦ d.roots ];
      tips = map_insert shift.sender (new_tip h shift nodes d.tips) d.tips;
      max_clock = merge d.max_clock shift.vector_clock;
      account_tips = advance shift.sender shift.vector_clock d.account_tips;
    }

abbrev pub refuse : ℕ → DagError → VectorClockDag → VectorClockDag × Result ℕ DagError
refuse h e d = (record d { refused = map_insert h e d.refused }, err e)

unfoldable pub insert :
    (ed : Ed25519)
    → (Bytes → ℕ)
    → StatefulShift
    → ed.VerifyingKey
    → ℕ
    → ℕ
    → VectorClockDag
    → VectorClockDag × Result ℕ DagError
insert ed blake3 shift key now depth d =
    let h : ℕ = hash blake3 shift in
    if not (verify_signature ed key shift)
    then refuse h (invalid_signature h) d
    else if contains_key h d.nodes
    then (d, ok h)
    else elim (missing shift.predecessors d.nodes) [
      | some p ↦ refuse h (missing_predecessor p) d
      | none ↦ (place h shift now depth d, ok h)
    ]

abbrev pub is_due : ℕ → DagNode → Bool
is_due now n = elim n.status [
  | accepted ↦ leb n.finalization_depth (saturating_sub now n.inserted_at_tick)
  | finalized ↦ false
  | rejected e ↦ false
]

-- The body of the `for` over the nodes, and the count that it keeps.
abbrev pub finalize : ℕ → DagNode → DagNode
finalize now n =
    if is_due now n then record n { status = finalized; finalized_at_tick = some now } else n

unfoldable pub promoted : ℕ → Map ℕ DagNode → ℕ
promoted now [] = 0
promoted now ((h, n) ∷ m) = (if is_due now n then 1 else 0) + promoted now m

unfoldable pub promote_to_finalized : ℕ → VectorClockDag → VectorClockDag × ℕ
promote_to_finalized now d =
    (record d { nodes = map_values (finalize now) d.nodes }, promoted now d.nodes)

unfoldable pub shift_status : ℕ → VectorClockDag → Option ShiftStatus
shift_status h d = elim (lookup h d.nodes) [
  | some n ↦ some n.status
  | none ↦ elim (lookup h d.refused) [ none ↦ none | some e ↦ some (rejected e) ]
]

unfoldable pub account_tip : ℕ → VectorClockDag → VectorClock
account_tip account d = unwrap_or (lookup account d.account_tips) empty_clock
