-- ===== src/State/Merkle.antt =====
-- `MerkleAccumulator` of src/state/merkle.rs. `blake3` is a parameter, its values 32-byte numbers.
pub mod Tree
mod Tests
use fluidic_node.Prelude.{
  ℕ, suc, zero, ◌+◌, ◌-◌, Bool, true, false, ◌&&◌, ◌||◌, List, [], ◌∷◌, ◌++◌, if◌then◌else◌, ltb,
  leb, nat_beq, nat_eq, length, replicate, map, get_or,
}
use fluidic_node.Prelude.Bytes.{Bytes, ascii, id_bytes}

abbrev pub Item : Type 0
Item = Bytes × Bytes

-- the order of byte vectors
unfoldable pub before : Bytes → Bytes → Bool
before [] [] = false
before [] (y ∷ ys) = true
before (x ∷ xs) [] = false
before (x ∷ xs) (y ∷ ys) = ltb x y || (nat_beq x y && before xs ys)

-- `sort_by` is stable: an item stays behind earlier ones with its key.
unfoldable pub place_item : Item → List Item → List Item
place_item i [] = i ∷ []
place_item i (j ∷ items) = if before j.0 i.0 then j ∷ place_item i items else i ∷ j ∷ items

unfoldable pub sort_items : List Item → List Item
sort_items [] = []
sort_items (i ∷ items) = place_item i (sort_items items)

module _ (blake3 : Bytes → ℕ) where
  unfoldable pub leaf : Item → ℕ
  leaf i = blake3 (ascii "fluidic:leaf:v1" ++ (i.0 ++ i.1))

  unfoldable pub node : ℕ → ℕ → ℕ
  node l r = blake3 (ascii "fluidic:node:v1" ++ (id_bytes l ++ id_bytes r))

  unfoldable pub empty_root : ℕ
  empty_root = blake3 (ascii "fluidic:empty:root")

  -- The `for` over the chunks of exactly two.
  unfoldable pub next_level : List ℕ → List ℕ
  next_level [] = []
  next_level (l ∷ []) = []
  next_level (l ∷ r ∷ level) = node l r ∷ next_level level

  -- The `while` over the levels, on fuel.
  unfoldable pub reduce : ℕ → List ℕ → List ℕ
  reduce zero level = level
  reduce (suc fuel) level =
      let rest = reduce fuel (next_level level) in if ltb 1 (length level) then rest else level

-- `next_power_of_two`, by doubling from `p`
unfoldable pub next_power : ℕ → ℕ → ℕ → ℕ
next_power zero p n = p
next_power (suc fuel) p n = let next = next_power fuel (p + p) n in if leb n p then p else next

abbrev pub last_or : List ℕ → ℕ → ℕ
last_or [] d = d
last_or (x ∷ xs) d = last_or xs x

-- A length has one bit set when it is its own next power of two.
unfoldable pub pad : List ℕ → List ℕ
pad leaves =
    let target : ℕ = next_power 64 1 (length leaves) in
    if nat_beq target (length leaves)
    then leaves
    else leaves ++ replicate (target - length leaves) (last_or leaves 0)

unfoldable pub root : (Bytes → ℕ) → List Item → ℕ
root blake3 items = elim (map (leaf blake3) (sort_items items)) [
  | [] ↦ empty_root blake3
  | l ∷ leaves ↦ get_or (reduce blake3 64 (pad (l ∷ leaves))) 0 0
]
