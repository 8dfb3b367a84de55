-- ===== src/Consensus/Oscillator/Staking.antt =====
-- `apply_stake` of src/consensus/oscillator.rs on the balance and the lock.
use fluidic_node.Prelude.{
  ℕ, ◌+◌, ◌-◌, ◌<◌, ◌≡◌, ◌≢◌, inl, inr, refl, Bool, true, false, if◌then◌else◌, ltb, nat_beq, arith,
  u128_mod, nat_eq, pair_eq, Bool-cases,
}
use fluidic_node.Prelude.Map.{lookup-insert}
use fluidic_node.Prelude.Bytes.{Bytes}
use fluidic_node.Crypto.Signatures.{Ed25519}
use fluidic_node.Crypto.Shift.Stake.{StakeShift, verify}
use fluidic_node.Operator.Stake.{StakeTable, entry, get_stake, stake}
use fluidic_node.Field.WaveField.Transfers.{units, credit_account_lem, debit_account_lem}
use fluidic_node.Consensus.Oscillator.{Oscillator, restake, apply_stake, check_and_record_nonce}

get_stake-stake :
    (j operator amount : ℕ) (t : StakeTable)
    → get_stake j (stake operator amount t).0
      ≡ (if nat_beq operator j then amount else get_stake j t)
unfolding get_stake stake
get_stake-stake j operator amount t =
    ground
      (arith, lookup-insert j operator (record (entry operator t) { stake = amount }) t.operators)

-- the value that an operator holds, free and locked
abbrev pub worth : ℕ → Oscillator → ℕ
worth j o = units j o.field + get_stake j o.stake_table

-- the effect of a stake event on its operator, and on the others
abbrev pub Restaked : ℕ → ℕ → Oscillator → Oscillator → Bool → Type 0
Restaked operator amount o o' done =
    (worth operator o' ≡ worth operator o)
    × (done ≡ true → get_stake operator o'.stake_table ≡ amount)
    × (done ≡ false → get_stake operator o'.stake_table ≡ get_stake operator o.stake_table)
    × ((j : ℕ) → j ≢ operator → worth j o' ≡ worth j o)

restake-Restaked :
    (operator amount : ℕ) (o : Oscillator)
    → worth operator o < u128_mod
    → Restaked operator amount o (restake operator amount o).0 (restake operator amount o).1
unfolding restake
restake-Restaked operator amount o b =
    let previous : ℕ = get_stake operator o.stake_table in
    elim (Bool-cases (nat_beq amount previous)) [
      | inl same ↦ rw same (refl, λ _. ground arith, λ e. refl, λ j ne. refl)
      | inr different ↦ elim (Bool-cases (ltb previous amount)) [
        | inl more ↦
            let additional : ℕ = amount - previous in
            let table = get_stake-stake operator operator amount o.stake_table in
            elim (Bool-cases (ltb (units operator o.field) additional)) [
              | inl poor ↦
                  rw (different, more, poor)
                    (refl, λ e. absurd (ground arith), λ _. refl, λ j ne. refl)
              | inr rich ↦
                  let d = debit_account_lem operator additional o.field in
                  elim d.0 [
                    | inl (le, taken, left) ↦
                        rw (different, more, rich, taken)
                          (
                            ground (arith, left, table),
                            λ _. ground (arith, table),
                            λ e. absurd (ground arith),
                            λ j ne.
                                ground (
                                  arith,
                                  d.1 j ne,
                                  get_stake-stake j operator amount o.stake_table,
                                ),
                          )
                    | inr (lt, _, _) ↦ absurd (ground arith)
                  ]
            ]
        | inr less ↦
            let refund : ℕ = previous - amount in
            let c = credit_account_lem operator refund o.field (ground arith) in
            rw (different, less)
              (
                ground (arith, c.0, get_stake-stake operator operator amount o.stake_table),
                λ _. ground (arith, get_stake-stake operator operator amount o.stake_table),
                λ e. absurd (ground arith),
                λ j ne. ground (arith, c.1 j ne, get_stake-stake j operator amount o.stake_table),
              )
      ]
    ]

apply_stake-kept :
    (ed : Ed25519) (blake3 : Bytes → ℕ) (s : StakeShift) (o : Oscillator)
    → worth s.operator o < u128_mod
    → let (o', done) = apply_stake ed blake3 s o in
      Restaked s.operator s.amount o o' done × (done ≡ true → verify ed blake3 s ≡ true)
unfolding apply_stake
apply_stake-kept ed blake3 s o b = elim (Bool-cases (verify ed blake3 s)) [
  | inr bad ↦
      rw bad
        ((refl, λ e. absurd (ground arith), λ _. refl, λ j ne. refl), λ e. absurd (ground arith))
  | inl signed ↦
      let seen = (check_and_record_nonce s.operator 0 s.nonce o.seen_nonces).0 in
      elim (Bool-cases (check_and_record_nonce s.operator 0 s.nonce o.seen_nonces).1) [
        | inr stale ↦
            rw (signed, stale)
              ((refl, λ e. absurd (ground arith), λ _. refl, λ j ne. refl), λ _. refl)
        | inl fresh ↦
            rw (signed, fresh)
              (restake-Restaked s.operator s.amount (record o { seen_nonces = seen }) b, λ _. refl)
      ]
]

-- A stake event leaves what its operator holds, balance and lock together, as it was, and the holdings
-- of all others. It is applied only if it is signed, and then the lock is its amount; refused, it
-- changes no lock. An amount beyond what the operator holds by the node's own records is refused. What
-- the operator holds fits 128 bits.
pub apply_stake-Restaked :
    (ed : Ed25519) (blake3 : Bytes → ℕ) (s : StakeShift) (o : Oscillator)
    → worth s.operator o < u128_mod
    → let (o', done) = apply_stake ed blake3 s o in
      Restaked s.operator s.amount o o' done
      × (done ≡ true → verify ed blake3 s ≡ true)
      × (worth s.operator o < s.amount → done ≡ false)
apply_stake-Restaked ed blake3 s o b =
    let (kept, signed) = apply_stake-kept ed blake3 s o b in
    let done : Bool = (apply_stake ed blake3 s o).1 in
    (
      kept,
      signed,
      λ beyond. elim (Bool-cases done) [
        | inl applied ↦ absurd (omega (arith, kept.0, kept.1 applied, beyond))
        | inr refused ↦ refused
      ],
    )
