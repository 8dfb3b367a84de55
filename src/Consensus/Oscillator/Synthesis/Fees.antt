-- ===== src/Consensus/Oscillator/Synthesis/Fees.antt =====
-- The value that the synthesis of src/consensus/oscillator.rs moves, and its fees.
use fluidic_node.Prelude.{
  ℕ, ◌+◌, ◌-◌, ◌*◌, ◌/◌, ◌≤◌, ◌<◌, ◌≡◌, ◌∙◌, ap, refl, List, [], ◌∷◌, none, some, nat_eq, arith,
  add_u128, saturating_mul, sub_u128, ltb, false, Bool-cases, inl, inr, u128_mod, Option-cases,
  none_ne_some, ok,
}
use native.Mathlib.Nat.{mul-le-mul_left}
use fluidic_node.Prelude.Map.{
  Map, lookup, modify, unwrap_or, is_none, sum_by-insert, sum_by-modify, amount, amount-le-sum_by,
}
use fluidic_node.Crypto.Signatures.{Ed25519}
use fluidic_node.Crypto.Shift.Stateful.{StatefulShift}
use fluidic_node.Consensus.Domain.{DomainPolicy, FeePolicy, flat, percentage, metabolic_only}
use fluidic_node.Consensus.Dag.{DagNode}
use fluidic_node.Consensus.Dag.Conservation.{total}
use fluidic_node.Consensus.Oscillator.{Oscillator, policy_fee, compute_signal_fee}
use fluidic_node.Consensus.Oscillator.Synthesis.{
  Settlement, apply_node, apply_nodes, move, unsettled,
}
use fluidic_node.Consensus.Oscillator.Synthesis.Steps.{some_inj, apply_node_cases}

-- no percentage policy asks for more than the whole amount
abbrev pub IsFair : Oscillator → Type 0
IsFair o =
    (domain : ℕ) (p : DomainPolicy) (bp : ℕ)
    → lookup domain o.domain_registry ≡ some p
    → p.fee_policy ≡ percentage bp
    → bp ≤ 10000

policy_fee-splits :
    (f : FeePolicy) (a fee net : ℕ)
    → ((bp : ℕ) → f ≡ percentage bp → bp ≤ 10000)
    → a < u128_mod
    → policy_fee f a ≡ ok (fee, net)
    → fee + net ≡ a
policy_fee-splits (flat x) a fee net fair small e = elim (Bool-cases (ltb a x)) [
  | inl below ↦ absurd (ground arith)
  | inr covered ↦ ground arith
]
policy_fee-splits (percentage bp) a fee net fair small e =
    let part : a * bp ≤ a * 10000 = mul-le-mul_left a (fair bp refl) in
    let q : (saturating_mul a bp / 10000 ≡ fee) × (sub_u128 a (saturating_mul a bp / 10000) ≡ net) =
      ground arith in
    omega (arith, part, q.0, q.1)
policy_fee-splits metabolic_only a fee net fair small e = ground arith

-- A fee and the net amount make up the amount.
compute_signal_fee-splits :
    (s : StatefulShift) (o : Oscillator) (fee net : ℕ)
    → IsFair o
    → s.amount < u128_mod
    → compute_signal_fee s o ≡ ok (fee, net)
    → fee + net ≡ s.amount
unfolding compute_signal_fee
compute_signal_fee-splits s o fee net fair small e =
    elim (Option-cases (lookup s.domain o.domain_registry)) [
      | inl gone ↦ absurd (ground arith)
      | inr (p, there) ↦
          policy_fee-splits p.fee_policy s.amount fee net (λ bp f. fair s.domain p bp there f) small
            (rw (there, compute_signal_fee) at e)
    ]

total-move :
    (h : ℕ) (shift : StatefulShift) (fee net : ℕ) (s : Settlement)
    → fee + net ≡ shift.amount
    → shift.amount ≤ unwrap_or (lookup shift.sender s.balances) 0
    → is_none (lookup shift.sender s.balances) ≡ false
    → total s.balances + s.total_fees < u128_mod
    → let s' = move h shift fee net s in
      total s'.balances + s'.total_fees ≡ total s.balances + s.total_fees
total-move h shift fee net s split covered known small =
    let m = s.balances in
    let m' : Map ℕ ℕ = modify shift.sender (λ x. x - shift.amount) m in
    let a = sum_by-modify (λ x. x) shift.sender (λ x. x - shift.amount) m in
    let debited : total m' + shift.amount ≡ total m = ground arith in
    let b = sum_by-insert (λ x. x) shift.to (add_u128 (unwrap_or (lookup shift.to m') 0) net) m' in
    let le = amount-le-sum_by (λ x. x) shift.to m' in
    let same : unwrap_or (lookup shift.to m') 0 ≡ amount (λ x. x) (lookup shift.to m') =
      ground arith in
    omega (arith, debited, b, le, same, split)

module _ (ed : Ed25519) (keys : Map ℕ ed.VerifyingKey) where
  apply_node-total :
      (h : ℕ) (n : DagNode) (o : Oscillator) (s s' : Settlement)
      → IsFair o
      → total s.balances + s.total_fees < u128_mod
      → apply_node ed keys h n o s ≡ some s'
      → total s'.balances + s'.total_fees ≡ total s.balances + s.total_fees
  apply_node-total h n o s s' fair small e = elim (apply_node_cases ed keys h n o s s' e) [
    | inl kept ↦ omega (arith, ap total kept.balances, kept.total_fees)
    | inr (signed, cleared, m) ↦
        let le = amount-le-sum_by (λ x. x) n.shift.sender s.balances in
        let same : unwrap_or (lookup n.shift.sender s.balances) 0
            ≡ amount (λ x. x) (lookup n.shift.sender s.balances) =
          ground (arith, m.present) in
        let split =
          compute_signal_fee-splits n.shift o m.fee m.net_amount fair
            (omega (arith, m.covered, le, same)) m.cost in
        ap (λ x. total x.balances + x.total_fees) m.outcome
        ∙ total-move h n.shift m.fee m.net_amount s split m.covered m.present small
  ]

  apply_nodes-total :
      (hs : List ℕ) (o : Oscillator) (s s' : Settlement)
      → IsFair o
      → total s.balances + s.total_fees < u128_mod
      → apply_nodes ed keys hs o s ≡ some s'
      → total s'.balances + s'.total_fees ≡ total s.balances + s.total_fees
  unfolding apply_nodes
  apply_nodes-total [] o s s' fair small e =
      ap (λ x. total x.balances + x.total_fees) (some_inj s s' e)
  apply_nodes-total (h ∷ hs) o s s' fair small e = elim (Option-cases (lookup h o.dag.nodes)) [
    | inl gone ↦ let bad : none ≡ some s' = rw (gone, apply_nodes) at e in absurd (none_ne_some bad)
    | inr (n, there) ↦ elim (Option-cases (apply_node ed keys h n o s)) [
      | inl panics ↦
          let bad : none ≡ some s' = rw (there, panics, apply_nodes) at e in
          absurd (none_ne_some bad)
      | inr (t, stepped) ↦
          let one = apply_node-total h n o s t fair small stepped in
          apply_nodes-total hs o t s' fair (omega (arith, one, small))
            (rw (there, stepped, apply_nodes) at e)
          ∙ one
    ]
  ]

  -- What the balances lose while the ordered shifts are applied is the fees that were collected. No
  -- policy asks for more than 10000 basis points, and the balances add up to less than 2 ^ 128.
  pub apply_nodes-conserves :
      (hs : List ℕ) (o : Oscillator) (s : Settlement)
      → IsFair o
      → total o.dag.balances < u128_mod
      → apply_nodes ed keys hs o (unsettled o) ≡ some s
      → total s.balances + s.total_fees ≡ total o.dag.balances
  apply_nodes-conserves hs o s fair small e =
      let r = apply_nodes-total hs o (unsettled o) s fair (omega arith) e in omega (arith, r)
