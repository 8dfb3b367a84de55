-- ===== src/Consensus/Dag/Conservation.antt =====
-- The value that `apply_ordered` of src/consensus/dag.rs moves.
use fluidic_node.Prelude.{
  ℕ, ◌+◌, ◌-◌, ◌≤◌, ◌<◌, ◌≡◌, ◌∙◌, Bool, false, List, [], ◌∷◌, ◌++◌, Option, none, some, ltb,
  add_u128, nat_eq, arith, u128_mod, Bool-cases, Option-cases, none_ne_some, inl, inr,
}
use fluidic_node.Prelude.Map.{
  Map, lookup, modify, unwrap_or, is_none, sum_by, sum_by-insert, sum_by-modify, amount,
  amount-le-sum_by,
}
use fluidic_node.Crypto.Shift.Stateful.{StatefulShift}
use fluidic_node.Consensus.Dag.{VectorClockDag, DagNode, DagError, insufficient_balance}
use fluidic_node.Consensus.Dag.Order.{
  topological_order, Ordering, panics, exhausted, cycle, ordered,
}
use fluidic_node.Consensus.Dag.Balances.{
  transfer, apply_shifts, apply_ordered, applied, result_of, apply_order,
}

abbrev pub total : Map ℕ ℕ → ℕ
total m = sum_by (λ x. x) m

total-transfer :
    (s : StatefulShift) (m : Map ℕ ℕ)
    → s.amount ≤ unwrap_or (lookup s.sender m) 0
    → is_none (lookup s.sender m) ≡ false
    → total m < u128_mod
    → total (transfer s m) ≡ total m
total-transfer s m covered known small =
    let m' : Map ℕ ℕ = modify s.sender (λ x. x - s.amount) m in
    let a = sum_by-modify (λ x. x) s.sender (λ x. x - s.amount) m in
    let debited : total m' + s.amount ≡ total m = ground arith in
    let b = sum_by-insert (λ x. x) s.to (add_u128 (unwrap_or (lookup s.to m') 0) s.amount) m' in
    let le = amount-le-sum_by (λ x. x) s.to m' in
    let same : unwrap_or (lookup s.to m') 0 ≡ amount (λ x. x) (lookup s.to m') = ground arith in
    omega (arith, debited, b, le, same)

apply_shifts-total :
    (nodes : Map ℕ DagNode) (hs : List ℕ) (m m' : Map ℕ ℕ) (es es' : List DagError)
    → total m < u128_mod
    → apply_shifts nodes hs m es ≡ some (m', es')
    → total m' ≡ total m
unfolding apply_shifts
apply_shifts-total nodes [] m m' es es' b h = ground arith
apply_shifts-total nodes (h ∷ hs) m m' es es' b e = elim (Option-cases (lookup h nodes)) [
  | inl gone ↦
      let bad : none ≡ some (m', es') = rw (gone, apply_shifts) at e in absurd (none_ne_some bad)
  | inr (n, there) ↦
      let poor : Bool = ltb (unwrap_or (lookup n.shift.sender m) 0) n.shift.amount in
      elim (Bool-cases poor) [
        | inl short ↦
            apply_shifts-total nodes hs m m' (es ++ (insufficient_balance h ∷ [])) es' b
              (rw (there, short, apply_shifts) at e)
        | inr covered ↦ elim (Bool-cases (is_none (lookup n.shift.sender m))) [
          | inl unknown ↦
              let bad : none ≡ some (m', es') = rw (there, covered, unknown, apply_shifts) at e in
              absurd (none_ne_some bad)
          | inr known ↦
              let kept : total (transfer n.shift m) ≡ total m =
                total-transfer n.shift m (ground arith) known b in
              apply_shifts-total nodes hs (transfer n.shift m) m' es es' (omega (arith, kept))
                (rw (there, covered, known, apply_shifts) at e)
              ∙ kept
        ]
      ]
]

result-applied :
    (r : Option (Map ℕ ℕ × List DagError)) (m : Map ℕ ℕ)
    → result_of r ≡ applied m
    → r ≡ some (m, [])
result-applied none m e = absurd (ground arith)
result-applied (some (m', [])) m e = ground arith
result-applied (some (m', x ∷ xs)) m e = absurd (ground arith)

order-conserves :
    (d : VectorClockDag) (o : Ordering) (m : Map ℕ ℕ)
    → total d.balances < u128_mod
    → apply_order d o ≡ applied m
    → total m ≡ total d.balances
order-conserves d panics m b e = absurd (ground arith)
order-conserves d exhausted m b e = absurd (ground arith)
order-conserves d (cycle x) m b e = absurd (ground arith)
order-conserves d (ordered order) m b e =
    apply_shifts-total d.nodes order d.balances m [] [] b
      (result-applied (apply_shifts d.nodes order d.balances []) m e)

-- When `apply_ordered` returns balances, they add up to what the DAG's balances add up to. That sum
-- fits 128 bits.
pub apply_ordered-conserves :
    (d : VectorClockDag) (m : Map ℕ ℕ)
    → total d.balances < u128_mod
    → apply_ordered d ≡ applied m
    → total m ≡ total d.balances
unfolding apply_ordered
apply_ordered-conserves d m b e = order-conserves d (topological_order d) m b e
