-- ===== src/Operator/Stake/Slashing.antt =====
-- A slash of src/operator/stake.rs and the calls after it.
use fluidic_node.Prelude.{
  ℕ, ◌+◌, ◌<◌, ◌≡◌, ◌≢◌, refl, sym, ◌∙◌, true, false, List, [], ◌∷◌, some, arith, nat_beq,
  if◌then◌else◌, u64_mod, length, sum, Bool-cases, inl, inr, nat_eq, pair_eq, list_eq,
}
use fluidic_node.Prelude.Map.{
  Map, lookup, update, lookup-insert, sum_by, sum_by-insert, is_none, amount,
}
use fluidic_node.Operator.Stake.{
  StakeTable, OperatorEntry, new, entry, fresh_entry, stake, slash, get_stake, is_staked,
  is_slashed, unslashed_stakes,
}

-- The two calls that change the table.
pub data Call : Type 0 where
  stakes : ℕ → ℕ → Call
  slashes : ℕ → Call

pub step : StakeTable → Call → StakeTable
step t (stakes operator amount) = (stake operator amount t).0
step t (slashes operator) = (slash operator t).0

pub run : StakeTable → List Call → StakeTable
run t [] = t
run t (c ∷ cs) = run (step t c) cs

lookup-update :
    (j k : ℕ) (f : OperatorEntry → OperatorEntry) (t : StakeTable)
    → lookup j (update k fresh_entry f t.operators)
      ≡ (if nat_beq k j then some (f (entry k t)) else lookup j t.operators)
lookup-update j k f t = lookup-insert j k (f (entry k t)) t.operators

step-is_slashed :
    (operator : ℕ) (t : StakeTable) (c : Call)
    → is_slashed operator t ≡ true
    → is_slashed operator (step t c) ≡ true
unfolding step is_slashed stake slash
step-is_slashed operator t (stakes k a) h =
    ground (arith, lookup-update operator k (λ e. record e { stake = a }) t)
step-is_slashed operator t (slashes k) h = ground (
  arith,
  lookup-update operator k (λ e. record e { stake = 0; slash_nonce = some t.slash_counter }) t,
)

slashed-is_staked :
    (operator : ℕ) (t : StakeTable) → is_slashed operator t ≡ true → is_staked operator t ≡ false
unfolding is_slashed is_staked
slashed-is_staked operator t h = ground arith

-- A slashed operator stays slashed and unstaked over any later calls, whatever it locks again.
pub run-is_slashed :
    (operator : ℕ) (t : StakeTable) (cs : List Call)
    → is_slashed operator t ≡ true
    → (is_slashed operator (run t cs) ≡ true) × (is_staked operator (run t cs) ≡ false)
unfolding run
run-is_slashed operator t [] h = (h, slashed-is_staked operator t h)
run-is_slashed operator t (c ∷ cs) h =
    run-is_slashed operator (step t c) cs (step-is_slashed operator t c h)

-- The stake that counts for a quorum.
abbrev pub active : OperatorEntry → ℕ
active e = if is_none e.slash_nonce then e.stake else 0

pub sum-unslashed_stakes : (m : Map ℕ OperatorEntry) → sum (unslashed_stakes m) ≡ sum_by active m
unfolding unslashed_stakes
sum-unslashed_stakes [] = refl
sum-unslashed_stakes ((k, e) ∷ m) = ground (arith, sum-unslashed_stakes m)

-- A slash returns the operator's locked stake and the running nonce; the operator is left with no
-- stake, slashed and unstaked, every other entry is unchanged, and the stake that counts falls by
-- what the operator's entry counted.
pub slash_lem :
    (operator : ℕ) (t : StakeTable)
    → let (t', nonce, burned) = slash operator t in
      (burned ≡ get_stake operator t)
      × (nonce ≡ t.slash_counter)
      × (get_stake operator t' ≡ 0)
      × (is_slashed operator t' ≡ true)
      × (is_staked operator t' ≡ false)
      × ((j : ℕ) → j ≢ operator → lookup j t'.operators ≡ lookup j t.operators)
      × (sum (unslashed_stakes t'.operators) + amount active (lookup operator t.operators)
          ≡ sum (unslashed_stakes t.operators))
unfolding slash get_stake is_slashed is_staked
slash_lem operator t =
    let gone : OperatorEntry → OperatorEntry =
      λ e. record e { stake = 0; slash_nonce = some t.slash_counter } in
    let m' : Map ℕ OperatorEntry = update operator fresh_entry gone t.operators in
    let own = lookup-update operator operator gone t in
    (
      ground arith,
      refl,
      ground (arith, own),
      ground (arith, own),
      ground (arith, own),
      (λ j ne. ground (arith, lookup-update j operator gone t)),
      omega (
        arith,
        sum-unslashed_stakes m',
        sum-unslashed_stakes t.operators,
        sum_by-insert active operator (gone (entry operator t)) t.operators,
      ),
    )

-- Every nonce is below the counter, and no two operators carry the same one.
abbrev pub IsNumbered : StakeTable → Type 0
IsNumbered t =
    (k n : ℕ)
    → (entry k t).slash_nonce ≡ some n
    → (n < t.slash_counter) × ((j : ℕ) → (entry j t).slash_nonce ≡ some n → j ≡ k)

entry-stake :
    (k operator a : ℕ) (t : StakeTable)
    → (entry k (stake operator a t).0).slash_nonce ≡ (entry k t).slash_nonce
unfolding stake
entry-stake k operator a t =
    ground (arith, lookup-update k operator (λ e. record e { stake = a }) t)

entry-slash :
    (k operator : ℕ) (t : StakeTable)
    → (entry k (slash operator t).0).slash_nonce
      ≡ (if nat_beq operator k then some t.slash_counter else (entry k t).slash_nonce)
unfolding slash
entry-slash k operator t = ground (
  arith,
  lookup-update k operator (λ e. record e { stake = 0; slash_nonce = some t.slash_counter }) t,
)

slash_counter-slash :
    (operator : ℕ) (t : StakeTable)
    → t.slash_counter + 1 < u64_mod
    → (slash operator t).0.slash_counter ≡ t.slash_counter + 1
unfolding slash
slash_counter-slash operator t h = omega arith

stake-IsNumbered :
    (operator a : ℕ) (t : StakeTable) → IsNumbered t → IsNumbered (stake operator a t).0
unfolding stake
stake-IsNumbered operator a t h k n e =
    let p = h k n (sym (entry-stake k operator a t) ∙ e) in
    (p.0, λ j e'. p.1 j (sym (entry-stake j operator a t) ∙ e'))

slash-IsNumbered :
    (operator : ℕ) (t : StakeTable)
    → t.slash_counter + 1 < u64_mod
    → IsNumbered t
    → IsNumbered (slash operator t).0
slash-IsNumbered operator t b h k n e = elim (Bool-cases (nat_beq operator k)) [
  | inl own ↦ (
    ground (arith, entry-slash k operator t, slash_counter-slash operator t b),
    λ j e'. elim (Bool-cases (nat_beq operator j)) [
      | inl too ↦ ground arith
      | inr other ↦
          let p = h j n (ground (arith, entry-slash j operator t)) in
          absurd (ground (arith, entry-slash k operator t))
    ],
  )
  | inr away ↦
      let p = h k n (ground (arith, entry-slash k operator t)) in
      (
        omega (arith, slash_counter-slash operator t b),
        λ j e'. elim (Bool-cases (nat_beq operator j)) [
          | inl own ↦ absurd (ground (arith, entry-slash j operator t))
          | inr other ↦ p.1 j (ground (arith, entry-slash j operator t))
        ],
      )
]

run-IsNumbered :
    (t : StakeTable) (cs : List Call)
    → t.slash_counter + length cs + 1 < u64_mod
    → IsNumbered t
    → IsNumbered (run t cs)
unfolding run step stake
run-IsNumbered t [] b h = h
run-IsNumbered t (stakes operator a ∷ cs) b h =
    run-IsNumbered (stake operator a t).0 cs (omega arith) (stake-IsNumbered operator a t h)
run-IsNumbered t (slashes operator ∷ cs) b h =
    run-IsNumbered (slash operator t).0 cs
      (omega (arith, slash_counter-slash operator t (omega arith)))
      (slash-IsNumbered operator t (omega arith) h)

-- Over any calls on a new table, fewer than 2 ^ 64 - 1 of them, the slash nonces stay below the
-- counter and no two operators carry the same one.
pub run-new-IsNumbered :
    (min_stake : ℕ) (cs : List Call) → length cs + 1 < u64_mod → IsNumbered (run (new min_stake) cs)
unfolding new
run-new-IsNumbered min_stake cs b =
    run-IsNumbered (new min_stake) cs (omega arith) (λ k n e. absurd (ground arith))
