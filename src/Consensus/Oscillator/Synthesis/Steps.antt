-- ===== src/Consensus/Oscillator/Synthesis/Steps.antt =====
-- What one round of the loop that applies the ordered shifts does, src/consensus/oscillator.rs.
use fluidic_node.Prelude.{
  ℕ, ◌≤◌, ◌≡◌, ◌⊎◌, sym, inl, inr, refl, ap, true, false, ◌&&◌, ◌||◌, none, some, ltb, nat_eq,
  Result, ok, err, arith, Bool-cases, Option-cases, none_ne_some,
}
use fluidic_node.Prelude.Map.{Map, lookup, is_none, unwrap_or}
use fluidic_node.Crypto.Signatures.{Ed25519}
use fluidic_node.Crypto.Shift.Stateful.{StatefulShift, verify_signature}
use fluidic_node.Consensus.Domain.{DomainPolicy}
use fluidic_node.Consensus.Dag.{DagNode, DagError, insufficient_balance, invalid_signature}
use fluidic_node.Consensus.Oscillator.{Oscillator, FeeError, quorum_at, compute_signal_fee}
use fluidic_node.Consensus.Oscillator.Synthesis.{
  Settlement, pay, settle, apply_node, is_rejected, needs_quorum, move, refuse,
}

-- a round that moves no value
pub record Kept (s s' : Settlement) : Type 0 where
  pub balances : s'.balances ≡ s.balances
  pub hashes : s'.hashes ≡ s.hashes
  pub total_fees : s'.total_fees ≡ s.total_fees

-- a round that moves the amount of a shift
pub record Moved (h : ℕ) (shift : StatefulShift) (o : Oscillator) (s s' : Settlement) : Type 0 where
  pub fee : ℕ
  pub net_amount : ℕ
  pub cost : compute_signal_fee shift o ≡ ok (fee, net_amount)
  pub covered : shift.amount ≤ unwrap_or (lookup shift.sender s.balances) 0
  pub present : is_none (lookup shift.sender s.balances) ≡ false
  pub outcome : s' ≡ move h shift fee net_amount s

-- a shift whose domain is known, and certified by a quorum where it is strict
pub record Cleared (n : DagNode) (o : Oscillator) : Type 0 where
  pub policy : DomainPolicy
  pub governed : lookup n.shift.domain o.domain_registry ≡ some policy
  pub certified :
      needs_quorum policy.ordering ≡ true → is_none (quorum_at n.inserted_at_tick o) ≡ false

-- a shift that is signed, not rejected and not applied before
pub record Signed (ed : Ed25519) (keys : Map ℕ ed.VerifyingKey) (n : DagNode) : Type 0 where
  pub standing : is_rejected n.status ≡ false
  pub first_time : n.applied ≡ false
  pub key : ed.VerifyingKey
  pub registered : lookup n.shift.sender keys ≡ some key
  pub signed : verify_signature ed key n.shift ≡ true

pub some_inj : {A : Type 0} (a b : A) → some a ≡ some b → b ≡ a
some_inj a b e = ap (λ o. unwrap_or o a) (sym e)

same-Kept : (s s' : Settlement) → some s ≡ some s' → Kept s s'
same-Kept s s' e =
    let q = some_inj s s' e in
    record {
      balances = ap (λ x. x.balances) q;
      hashes = ap (λ x. x.hashes) q;
      total_fees = ap (λ x. x.total_fees) q;
    }

refuse-Kept : (x : DagError) (s s' : Settlement) → some (refuse x s) ≡ some s' → Kept s s'
refuse-Kept x s s' e =
    let k = same-Kept (refuse x s) s' e in
    record { balances = k.balances; hashes = k.hashes; total_fees = k.total_fees }

pay_cases :
    (h : ℕ) (n : DagNode) (o : Oscillator) (s s' : Settlement) (r : Result (ℕ × ℕ) FeeError)
    → compute_signal_fee n.shift o ≡ r
    → pay h n.shift r s ≡ some s'
    → Kept s s' ⊎ Moved h n.shift o s s'
unfolding pay
pay_cases h n o s s' (err x) c e = inl (refuse-Kept (insufficient_balance h) s s' e)
pay_cases h n o s s' (ok (fee, net)) c e =
    elim (Bool-cases (ltb (unwrap_or (lookup n.shift.sender s.balances) 0) n.shift.amount)) [
      | inl poor ↦ inl (refuse-Kept (insufficient_balance h) s s' (rw (poor, pay) at e))
      | inr rich ↦ elim (Bool-cases (is_none (lookup n.shift.sender s.balances))) [
        | inl absent ↦
            let bad : none ≡ some s' = rw (rich, absent, pay) at e in absurd (none_ne_some bad)
        | inr present ↦ inr (record {
          fee = fee;
          net_amount = net;
          cost = c;
          covered = ground arith;
          present = present;
          outcome = some_inj (move h n.shift fee net s) s' (rw (rich, present, pay) at e);
        })
      ]
    ]

settle_cases :
    (h : ℕ) (n : DagNode) (o : Oscillator) (s s' : Settlement)
    → settle h n o s ≡ some s'
    → Kept s s' ⊎ (Cleared n o × Moved h n.shift o s s')
unfolding settle
settle_cases h n o s s' e = elim (Option-cases (lookup n.shift.domain o.domain_registry)) [
  | inl gone ↦ inl (same-Kept s s' (rw (gone, settle) at e))
  | inr (policy, there) ↦
      elim (Bool-cases (needs_quorum policy.ordering && is_none (quorum_at n.inserted_at_tick o))) [
        | inl waits ↦ inl (same-Kept s s' (rw (there, waits, settle) at e))
        | inr clear ↦
            elim (pay_cases h n o s s' (compute_signal_fee n.shift o) refl
              (rw (there, clear, settle) at e)) [
                | inl k ↦ inl k
                | inr m ↦ inr (
                  record { policy = policy; governed = there; certified = λ strict. ground arith },
                  m,
                )
              ]
      ]
]

-- A round that succeeds moves no value, or moves the amount of a signed and cleared shift.
pub apply_node_cases :
    (ed : Ed25519) (keys : Map ℕ ed.VerifyingKey) (h : ℕ) (n : DagNode) (o : Oscillator)
    (s s' : Settlement)
    → apply_node ed keys h n o s ≡ some s'
    → Kept s s' ⊎ (Signed ed keys n × Cleared n o × Moved h n.shift o s s')
unfolding apply_node
apply_node_cases ed keys h n o s s' e = elim (Bool-cases (is_rejected n.status || n.applied)) [
  | inl over ↦ inl (same-Kept s s' (rw (over, apply_node) at e))
  | inr open_one ↦ elim (Option-cases (lookup n.shift.sender keys)) [
    | inl gone ↦ inl (refuse-Kept (invalid_signature h) s s' (rw (open_one, gone, apply_node) at e))
    | inr (key, there) ↦ elim (Bool-cases (verify_signature ed key n.shift)) [
      | inr forged ↦
          inl
            (refuse-Kept (invalid_signature h) s s' (rw (open_one, there, forged, apply_node) at e))
      | inl signed ↦
          elim (settle_cases h n o s s' (rw (open_one, there, signed, apply_node) at e)) [
            | inl k ↦ inl k
            | inr (cleared, m) ↦ inr (
              record {
                standing = ground arith;
                first_time = ground arith;
                key = key;
                registered = there;
                signed = signed;
              },
              cleared,
              m,
            )
          ]
    ]
  ]
]
