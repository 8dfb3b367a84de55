-- ===== src/Consensus/Oscillator/Synthesis.antt =====
-- The stages of `synthesize` of src/consensus/oscillator.rs, in the order of the code. Latencies and
-- throughput, floats for display, are left out.
pub mod Steps
pub mod Authority
pub mod Marks
pub mod Once
pub mod Fees
pub mod Agreement
mod Tests
use fluidic_node.Prelude.{
  ℕ, ◌+◌, ◌-◌, ◌*◌, ◌/◌, min, Bool, true, false, not, ◌&&◌, ◌||◌, List, [], ◌∷◌, ◌++◌, Option, none,
  some, if◌then◌else◌, ltb, leb, nat_beq, nat_eq, Result, ok, err, any, add_u64, add_u128,
  saturating_add, saturating_mul,
}
use fluidic_node.Prelude.Map.{
  Map, lookup, insert, update, modify, contains_key, is_some, is_none, unwrap_or,
}
use fluidic_node.Prelude.Bytes.{Bytes}
use fluidic_node.Crypto.Signatures.{Ed25519}
use fluidic_node.Crypto.Shift.Stateful.{StatefulShift, hash, verify_signature}
use fluidic_node.Value.Supply.{burn}
use fluidic_node.Value.Metabolic.{
  metabolic_burn_bp, basis_points_denominator, default_dex_lambda_ppm, record_burn,
}
use fluidic_node.Operator.Stake.{StakeTable, staked_operators}
use fluidic_node.Operator.Rewards.{distribute, distribute_fees, default_dex_domain}
use fluidic_node.Field.WaveField.{
  WaveField, Balance, apply_metabolic_decay, write_account, debit_account, account_balance,
}
use fluidic_node.Consensus.Domain.{DomainPolicy, OrderingMode, causal, commutative, strict}
use fluidic_node.Consensus.Dag.{
  VectorClockDag, DagNode, DagError, ShiftStatus, accepted, finalized, rejected, invalid_signature,
  insufficient_balance, double_spend, missing_predecessor, causal_cycle, promote_to_finalized,
  insert as dag_insert,
}
use fluidic_node.Consensus.Dag.DoubleSpend.{detect_double_spends}
use fluidic_node.Consensus.Oscillator.{Oscillator, FeeError, quorum_at, compute_signal_fee}

-- `immune_accounts.contains`
abbrev pub is_immune : StakeTable → ℕ → Bool
is_immune table account = any (λ e. nat_beq e.0 account) (staked_operators table)

-- Step 0: the decay at the tick, and its split into a burn and rewards.
unfoldable pub decay : ℕ → Oscillator → Oscillator × ℕ
decay tick o =
    let dex_lambda : ℕ = elim (lookup default_dex_domain o.domain_registry) [
      | none ↦ default_dex_lambda_ppm
      | some p ↦ p.metabolic_lambda_ppm
    ] in
    let (field, decayed) =
      apply_metabolic_decay tick dex_lambda (is_immune o.stake_table) o.field in
    let burn_share : ℕ = saturating_mul decayed metabolic_burn_bp / basis_points_denominator in
    let reward_share : ℕ = decayed - burn_share in
    (
      record o {
        field = field;
        metabolic_engine = record_burn decayed o.metabolic_engine;
        supply_tracker =
            if ltb 0 burn_share then burn burn_share o.supply_tracker else o.supply_tracker;
        reward_pool =
            if ltb 0 reward_share
            then distribute reward_share o.stake_table o.reward_pool
            else o.reward_pool;
      },
      decayed,
    )

-- Step 0b: the `for` over the field's accounts.
unfoldable pub sync_decayed : Map ℕ Balance → Map ℕ ℕ → Map ℕ ℕ
sync_decayed [] balances = balances
sync_decayed ((id, b) ∷ m) balances = sync_decayed m (insert id b.units balances)

abbrev pub default_finalization_depth : ℕ
default_finalization_depth = 3

-- Step 1: the `for` over the drained shifts, with the errors pushed so far.
unfoldable pub insert_pending :
    (ed : Ed25519)
    → (Bytes → ℕ)
    → Map ℕ ed.VerifyingKey
    → Map ℕ DomainPolicy
    → ℕ
    → List StatefulShift
    → VectorClockDag
    → List DagError
    → VectorClockDag × List DagError
insert_pending ed blake3 keys registry tick [] d errors = (d, errors)
insert_pending ed blake3 keys registry tick (s ∷ shifts) d errors =
    let depth : ℕ = elim (lookup s.domain registry) [
      | none ↦ default_finalization_depth
      | some p ↦ p.finalization_depth
    ] in
    elim (lookup s.sender keys) [
      | none ↦
          insert_pending ed blake3 keys registry tick shifts d
            (errors ++ (invalid_signature (hash blake3 s) ∷ []))
      | some pk ↦
          let (d', r) = dag_insert ed blake3 s pk tick depth d in
          insert_pending ed blake3 keys registry tick shifts d'
            (elim r [ ok h ↦ errors | err e ↦ errors ++ (e ∷ []) ])
    ]

abbrev pub mark : DagError → Map ℕ DagNode → Map ℕ DagNode
mark (double_spend h) nodes = modify h (λ n. record n { status = rejected (double_spend h) }) nodes
mark (missing_predecessor h) nodes = nodes
mark (invalid_signature h) nodes = nodes
mark (insufficient_balance h) nodes = nodes
mark (causal_cycle h) nodes = nodes

-- The `for` over the double spends.
unfoldable pub mark_double_spends : List DagError → Map ℕ DagNode → Map ℕ DagNode
mark_double_spends [] nodes = nodes
mark_double_spends (e ∷ es) nodes = mark_double_spends es (mark e nodes)

-- Step 1 as a whole: the DAG, and the errors of the step.
unfoldable pub order_pending :
    (ed : Ed25519)
    → (Bytes → ℕ)
    → Map ℕ ed.VerifyingKey
    → ℕ
    → Oscillator
    → Oscillator × List DagError
order_pending ed blake3 keys tick o =
    let (d, errors) =
      insert_pending ed blake3 keys o.domain_registry tick o.pending_stateful o.dag [] in
    let double_spends = detect_double_spends d in
    let d' = record d { nodes = mark_double_spends double_spends d.nodes } in
    (
      record o { pending_stateful = []; dag = (promote_to_finalized tick d').0 },
      errors ++ double_spends,
    )

-- what the loop of step 3 changes
pub record Settlement : Type 0 where
  pub balances : Map ℕ ℕ
  pub hashes : List ℕ
  pub active : List ℕ
  pub total_fees : ℕ
  pub errors : List DagError

abbrev pub is_rejected : ShiftStatus → Bool
is_rejected accepted = false
is_rejected finalized = false
is_rejected (rejected e) = true

abbrev pub needs_quorum : OrderingMode → Bool
needs_quorum causal = false
needs_quorum commutative = false
needs_quorum strict = true

abbrev pub refuse : DagError → Settlement → Settlement
refuse e s = record s { errors = s.errors ++ (e ∷ []) }

-- The transfer of an affordable shift; both parties of one to another account are active.
abbrev pub move : ℕ → StatefulShift → ℕ → ℕ → Settlement → Settlement
move h shift fee net_amount s = record {
  balances =
      update shift.to 0 (λ x. add_u128 x net_amount)
        (modify shift.sender (λ x. x - shift.amount) s.balances);
  hashes = s.hashes ++ (h ∷ []);
  active = if nat_beq shift.sender shift.to then s.active else shift.sender ∷ shift.to ∷ s.active;
  total_fees = saturating_add s.total_fees fee;
  errors = s.errors;
}

-- The loop's body past the computation of the fee; `none` is a panic.
unfoldable pub pay : ℕ → StatefulShift → Result (ℕ × ℕ) FeeError → Settlement → Option Settlement
pay h shift (err e) s = some (refuse (insufficient_balance h) s)
pay h shift (ok (fee, net_amount)) s =
    if ltb (unwrap_or (lookup shift.sender s.balances) 0) shift.amount
    then some (refuse (insufficient_balance h) s)
    else if is_none (lookup shift.sender s.balances)
    then none
    else some (move h shift fee net_amount s)

-- The loop's body past the check of the signature.
unfoldable pub settle : ℕ → DagNode → Oscillator → Settlement → Option Settlement
settle h n o s = elim (lookup n.shift.domain o.domain_registry) [
  | none ↦ some s
  | some policy ↦
      if needs_quorum policy.ordering && is_none (quorum_at n.inserted_at_tick o)
      then some s
      else pay h n.shift (compute_signal_fee n.shift o) s
]

-- The loop's body.
unfoldable pub apply_node :
    (ed : Ed25519)
    → Map ℕ ed.VerifyingKey
    → ℕ
    → DagNode
    → Oscillator
    → Settlement
    → Option Settlement
apply_node ed keys h n o s =
    if is_rejected n.status || n.applied then some s else elim (lookup n.shift.sender keys) [
      | none ↦ some (refuse (invalid_signature h) s)
      | some pk ↦
          if not (verify_signature ed pk n.shift)
          then some (refuse (invalid_signature h) s)
          else settle h n o s
    ]

-- `for hash in order`
unfoldable pub apply_nodes :
    (ed : Ed25519) → Map ℕ ed.VerifyingKey → List ℕ → Oscillator → Settlement → Option Settlement
apply_nodes ed keys [] o s = some s
apply_nodes ed keys (h ∷ hs) o s = elim (lookup h o.dag.nodes) [
  | none ↦ none
  | some n ↦ elim (apply_node ed keys h n o s) [
    | none ↦ none
    | some s' ↦ apply_nodes ed keys hs o s'
  ]
]

-- the start of the loop
abbrev pub unsettled : Oscillator → Settlement
unsettled o = record {
  balances = o.dag.balances;
  hashes = [];
  active = [];
  total_fees = 0;
  errors = [];
}

-- The `for` that collects `fee_debt`.
unfoldable pub fee_debt : List ℕ → Oscillator → Map ℕ ℕ → Map ℕ ℕ
fee_debt [] o debt = debt
fee_debt (h ∷ hs) o debt = elim (lookup h o.dag.nodes) [
  | none ↦ fee_debt hs o debt
  | some n ↦
      let fee : ℕ = elim (compute_signal_fee n.shift o) [ err e ↦ 0 | ok r ↦ r.0 ] in
      fee_debt hs o (update n.shift.sender 0 (λ x. add_u128 x fee) debt)
]

-- The `for` over `fee_debt`.
unfoldable pub debit_fees : Map ℕ ℕ → WaveField → WaveField
debit_fees [] f = f
debit_fees ((account, fee) ∷ debt) f =
    debit_fees debt (debit_account account (min fee (account_balance account f).units) f).0

unfoldable pub charge_fees : Settlement → Oscillator → Oscillator
charge_fees s o =
    if ltb 0 s.total_fees
    then record o {
      field = debit_fees (fee_debt s.hashes o []) o.field;
      reward_pool = distribute_fees s.total_fees o.stake_table o.reward_pool;
    }
    else o

-- The `for` that sets `applied`.
unfoldable pub mark_applied : List ℕ → Map ℕ DagNode → Map ℕ DagNode
mark_applied [] nodes = nodes
mark_applied (h ∷ hs) nodes = mark_applied hs (modify h (λ n. record n { applied = true }) nodes)

-- The `for` over the simulated balances.
unfoldable pub sync_field : ℕ → List ℕ → Map ℕ ℕ → WaveField → WaveField
sync_field tick active [] f = f
sync_field tick active ((account, balance) ∷ m) f = sync_field tick active m (
    write_account account
      (λ b.
        if any (nat_beq account) active
        then record b { units = balance; last_active_tick = tick }
        else record b { units = balance })
      f)

-- The commit of the applied shifts and balances, which the EVM may have changed.
unfoldable pub commit : ℕ → Settlement → Map ℕ ℕ → Oscillator → Oscillator
commit tick s balances o = record o {
  dag = record o.dag { nodes = mark_applied s.hashes o.dag.nodes; balances = balances };
  field = sync_field tick s.active balances o.field;
}
