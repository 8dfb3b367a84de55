-- ===== src/Consensus/Dag/Lifecycle.antt =====
-- Statuses in src/consensus/dag.rs: what an insertion and a promotion do to them, over any calls.
use fluidic_node.Prelude.{
  ℕ, ◌-◌, ◌≤◌, ◌<◌, ◌≡◌, ◌≢◌, ◌⊎◌, ◌∙◌, refl, true, false, ◌&&◌, not, List, [], ◌∷◌, Option, none,
  some, if◌then◌else◌, nat_beq, Bool-cases, inl, inr, arith, nat_eq, ok, err, Option-cases,
}
use fluidic_node.Prelude.Map.{
  Map, lookup, modify, contains_key, lookup-insert, lookup-modify, map_values,
}
use mathlib.Core.Option
use fluidic_node.Prelude.Bytes.{Bytes}
use fluidic_node.Crypto.Signatures.{Ed25519}
use fluidic_node.Crypto.Shift.Stateful.{StatefulShift, hash, verify_signature}
use fluidic_node.Consensus.Dag.{
  VectorClockDag, DagNode, DagError, ShiftStatus, accepted, finalized, rejected, invalid_signature,
  missing_predecessor, place, insert, refuse, missing, add_child, set_insert, node_of, finalize,
  promote_to_finalized, promoted, shift_status,
}

-- Entering a node with its predecessors changes nothing but children.
add_child-lookup :
    (h j : ℕ) (ps : List ℕ) (m : Map ℕ DagNode)
    → Option.map (λ n. n.status) (lookup j (add_child h ps m))
      ≡ Option.map (λ n. n.status) (lookup j m)
unfolding add_child
add_child-lookup h j [] m = refl
add_child-lookup h j (p ∷ ps) m =
    add_child-lookup h j ps (modify p (λ n. record n { children = set_insert h n.children }) m)
    ∙ ground (arith, lookup-modify j p (λ n. record n { children = set_insert h n.children }) m)

node_status : ℕ → Map ℕ DagNode → Option ShiftStatus
node_status h m = Option.map (λ n. n.status) (lookup h m)

shift_status-place :
    (j h now depth : ℕ) (shift : StatefulShift) (d : VectorClockDag)
    → shift_status j (place h shift now depth d)
      ≡ (if nat_beq h j then some accepted else shift_status j d)
unfolding shift_status place
shift_status-place j h now depth shift d = ground (
  arith,
  lookup-insert j h (node_of h shift now depth) (add_child h shift.predecessors d.nodes),
  add_child-lookup h j shift.predecessors d.nodes,
)

shift_status-refuse :
    (j h : ℕ) (e : DagError) (d : VectorClockDag)
    → shift_status j (refuse h e d).0 ≡ (
        if nat_beq h j && not (contains_key h d.nodes) then some (rejected e) else shift_status j d)
unfolding shift_status
shift_status-refuse j h e d = ground (arith, lookup-insert j h e d.refused)

-- After an insertion that returns a hash, the DAG reports that hash as accepted, or as it did
-- before if it held the shift already; after one that returns an error it reports the shift as
-- rejected with that error unless it already holds it. No other shift's status changes.
pub insert-shift_status :
    (ed : Ed25519) (blake3 : Bytes → ℕ) (shift : StatefulShift) (key : ed.VerifyingKey)
    (now depth : ℕ) (d : VectorClockDag)
    → let h : ℕ = hash blake3 shift in
      let (d', r) = insert ed blake3 shift key now depth d in
      (((r ≡ ok h) × (contains_key h d.nodes ≡ true) × (d' ≡ d))
        ⊎ ((r ≡ ok h) × (contains_key h d.nodes ≡ false) × (shift_status h d' ≡ some accepted))
        ⊎ ((e : DagError) × (r ≡ err e)
            × (d'.nodes ≡ d.nodes)
            × (contains_key h d.nodes ≡ false → shift_status h d' ≡ some (rejected e))))
      × ((j : ℕ) → j ≢ h → shift_status j d' ≡ shift_status j d)
unfolding insert
insert-shift_status ed blake3 shift key now depth d =
    let h : ℕ = hash blake3 shift in
    elim (Bool-cases (verify_signature ed key shift)) [
      | inr bad ↦ rw bad (
        inr (
            inr (
              invalid_signature h,
              refl,
              refl,
              λ away. ground (arith, shift_status-refuse h h (invalid_signature h) d),
            )),
        λ j ne. ground (arith, shift_status-refuse j h (invalid_signature h) d),
      )
      | inl good ↦ elim (Bool-cases (contains_key h d.nodes)) [
        | inl there ↦ rw (good, there) (inl (refl, refl, refl), λ j ne. refl)
        | inr away ↦ elim (Option-cases (missing shift.predecessors d.nodes)) [
          | inr (p, lacks) ↦
              rw (good, away, lacks)
                (
                  inr (
                      inr (
                        missing_predecessor p,
                        refl,
                        refl,
                        λ w. ground (arith, shift_status-refuse h h (missing_predecessor p) d),
                      )),
                  λ j ne. ground (arith, shift_status-refuse j h (missing_predecessor p) d),
                )
          | inl linked ↦
              rw (good, away, linked)
                (
                  inr (inl (refl, refl, ground (arith, shift_status-place h h now depth shift d))),
                  λ j ne. ground (arith, shift_status-place j h now depth shift d),
                )
        ]
      ]
    ]

-- what a promotion makes of one node
abbrev pub Promoted : ℕ → DagNode → DagNode → Type 0
Promoted now n n' =
    ((n.status ≡ accepted)
      × (n.finalization_depth ≤ now - n.inserted_at_tick)
      × (n' ≡ record n { status = finalized; finalized_at_tick = some now }))
    ⊎ ((n' ≡ n) × (n.status ≡ accepted → now - n.inserted_at_tick < n.finalization_depth))

finalize_lem : (now : ℕ) (n : DagNode) → Promoted now n (finalize now n)
finalize_lem now n = ground arith

lookup-map_values :
    (h : ℕ) (f : DagNode → DagNode) (m : Map ℕ DagNode)
    → lookup h (map_values f m) ≡ Option.map f (lookup h m)
lookup-map_values h f [] = refl
lookup-map_values h f ((k, n) ∷ m) = ground (arith, lookup-map_values h f m)

-- A promotion finalizes, at the current tick, exactly the accepted shifts that have reached their
-- depth, and changes no other node; a second one at the same tick finalizes none.
promote_to_finalized_lem :
    (now : ℕ) (d : VectorClockDag)
    → let d' = (promote_to_finalized now d).0 in
      ((h : ℕ) (n : DagNode)
        → lookup h d.nodes ≡ some n
        → (n' : DagNode) × (lookup h d'.nodes ≡ some n') × Promoted now n n')
      × ((h : ℕ) → lookup h d.nodes ≡ none → lookup h d'.nodes ≡ none)
      × ((promote_to_finalized now d').1 ≡ 0)
unfolding promote_to_finalized promoted
promote_to_finalized_lem now d = (
  λ h n e.
      (finalize now n, lookup-map_values h (finalize now) d.nodes ∙ rw e refl, finalize_lem now n),
  λ h e. lookup-map_values h (finalize now) d.nodes ∙ rw e refl,
  none_left d.nodes,
)
  where
    none_left : (m : Map ℕ DagNode) → promoted now (map_values (finalize now) m) ≡ 0
    none_left [] = refl
    none_left ((h, n) ∷ m) = ground (arith, none_left m)
