-- ===== src/State/Commitments/Unique.antt =====
-- The commitment of src/operator/stake.rs and the order of the table.
use fluidic_node.Prelude.{
  ℕ, suc, zero, ◌*◌, ◌/◌, ◌%◌, ◌^◌, ◌<◌, ◌≡◌, ◌∙◌, sym, ap, refl, true, false, ◌&&◌, ◌||◌,
  Bool-cases, [], ◌∷◌, ◌++◌, ltb, leb, nat_beq, nat_eq, inl, inr, arith,
}
use native.Mathlib.Nat.{div-add-mod, one-le-pow, div-lt_iff_lt-mul, div-mul-le_self}
use fluidic_node.Prelude.Map.{Map, lookup, IsMap}
use fluidic_node.Prelude.Sorted.{place_entry, sort_entries, sort_entries_unique}
use fluidic_node.Prelude.Bytes.{Bytes, id_bytes, to_be_bytes}
use fluidic_node.Operator.Stake.{OperatorEntry, StakeTable}
use fluidic_node.State.Merkle.{Item, before, place_item, sort_items, root}
use fluidic_node.State.Commitments.{slash_flag, stake_items, stake_root}

quotient_less : (p a b : ℕ) → 0 < p → a / p < b / p → a < b
quotient_less p a b h less =
    let below : a < b / p * p = (div-lt_iff_lt-mul h).0 less in
    omega (arith, below, div-mul-le_self b p)

remainder_less : (p a b : ℕ) → a / p ≡ b / p → ltb (a % p) (b % p) ≡ ltb a b
remainder_less p a b same =
    let e : p * (a / p) ≡ p * (b / p) = ap (λ x. p * x) same in
    ground (arith, e, div-add-mod a p, div-add-mod b p)

lexicographic :
    (p a b : ℕ)
    → 0 < p
    → (ltb (a / p) (b / p) || (nat_beq (a / p) (b / p) && ltb (a % p) (b % p))) ≡ ltb a b
lexicographic p a b h = elim (Bool-cases (ltb (a / p) (b / p))) [
  | inl less ↦ let r : a < b = quotient_less p a b h (ground arith) in rw less (ground arith)
  | inr not_less ↦ elim (Bool-cases (nat_beq (a / p) (b / p))) [
    | inl same ↦ rw (not_less, same) (remainder_less p a b (ground arith))
    | inr apart ↦
        let r : b < a = quotient_less p b a h (ground arith) in rw (not_less, apart) (ground arith)
  ]
]

before-to_be_bytes : (w a b : ℕ) → before (to_be_bytes (suc w) a) (to_be_bytes (suc w) b) ≡ ltb a b
unfolding before to_be_bytes
before-to_be_bytes zero a b = ground arith
before-to_be_bytes (suc w) a b =
    let p = 256 ^ suc w in
    ap (λ x. ltb (a / p) (b / p) || (nat_beq (a / p) (b / p) && x))
      (before-to_be_bytes w (a % p) (b % p))
    ∙ lexicographic p a b (one-le-pow (suc w) 256 (omega arith))

abbrev stake_item : ℕ × OperatorEntry → Item
stake_item (k, e) = (id_bytes k, to_be_bytes 16 e.stake ++ (slash_flag e.slash_nonce ∷ []))

place_item-stake_items :
    (k : ℕ) (e : OperatorEntry) (m : Map ℕ OperatorEntry)
    → place_item (stake_item (k, e)) (stake_items m) ≡ stake_items (place_entry (k, e) m)
unfolding place_item stake_items place_entry
place_item-stake_items k e [] = refl
place_item-stake_items k e ((j, f) ∷ m) =
    let order : before (id_bytes j) (id_bytes k) ≡ ltb j k = before-to_be_bytes 31 j k in
    elim (Bool-cases (ltb j k)) [
      | inl earlier ↦
          let later : leb k j ≡ false = ground arith in
          rw (order, earlier, later)
            (ap (λ items. stake_item (j, f) ∷ items) (place_item-stake_items k e m))
      | inr later ↦ let first : leb k j ≡ true = ground arith in rw (order, later, first) refl
    ]

sort_items-stake_items :
    (m : Map ℕ OperatorEntry) → sort_items (stake_items m) ≡ stake_items (sort_entries m)
unfolding sort_items stake_items sort_entries
sort_items-stake_items [] = refl
sort_items-stake_items ((k, e) ∷ m) =
    ap (place_item (stake_item (k, e))) (sort_items-stake_items m)
    ∙ place_item-stake_items k e (sort_entries m)

-- Two stake tables that list each operator at most once and hold the same entries have the same root,
-- whatever the order of their operators, their minimum stakes and their slash counters.
pub stake_root_unique :
    (blake3 : Bytes → ℕ) (t u : StakeTable)
    → IsMap t.operators
    → IsMap u.operators
    → ((i : ℕ) → lookup i t.operators ≡ lookup i u.operators)
    → stake_root blake3 t ≡ stake_root blake3 u
unfolding stake_root
stake_root_unique blake3 t u ht hu same = ap (root blake3) (
    sort_items-stake_items t.operators
    ∙ ap stake_items (sort_entries_unique t.operators u.operators ht hu same)
    ∙ sym (sort_items-stake_items u.operators))
