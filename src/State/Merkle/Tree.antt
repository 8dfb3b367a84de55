-- ===== src/State/Merkle/Tree.antt =====
-- The levels of src/state/merkle.rs against a binary tree that is read from its root.
use fluidic_node.Prelude.{
  ℕ, suc, zero, ◌+◌, ◌-◌, ◌<◌, ◌≤◌, ◌≡◌, ◌∙◌, sym, ap, refl, true, Bool-cases, List, [], ◌∷◌, ◌++◌,
  ltb, nat_beq, nat_eq, length, length-append, replicate, map, get_or, take, drop, inl, inr, arith,
}
use fluidic_node.Prelude.Slices.{append_assoc, append_empty}
use fluidic_node.Prelude.Bytes.{Bytes}
use fluidic_node.State.Merkle.{
  Item, place_item, sort_items, leaf, node, next_level, reduce, next_power, pad, last_or, root,
  empty_root,
}

-- the number of leaves of a tree of depth d
abbrev pub width : ℕ → ℕ
width zero = 1
width (suc d) = width d + width d

width_pos : (d : ℕ) → 1 ≤ width d
width_pos zero = omega arith
width_pos (suc d) = omega (arith, width_pos d)

abbrev scale : ℕ → ℕ → ℕ
scale zero p = p
scale (suc d) p = scale d (p + p)

scale_grows : (d p : ℕ) → p ≤ scale d p
scale_grows zero p = omega arith
scale_grows (suc d) p = omega (arith, scale_grows d (p + p))

scale_add : (d p q : ℕ) → scale d (p + q) ≡ scale d p + scale d q
scale_add zero p q = refl
scale_add (suc d) p q = omega (
  arith,
  scale_add d (p + q) (p + q),
  scale_add d (p + p) (q + q),
  scale_add d p p,
  scale_add d q q,
  scale_add d p q,
)

scale-width : (d : ℕ) → scale d 1 ≡ width d
scale-width zero = refl
scale-width (suc d) = omega (arith, scale_add d 1 1, scale-width d)

next_power-scale :
    (fuel d p n : ℕ)
    → d ≤ fuel
    → n ≤ scale d p
    → scale d p < n + n
    → next_power fuel p n ≡ scale d p
unfolding next_power
next_power-scale zero zero p n h above below = refl
next_power-scale zero (suc d) p n h above below = absurd (omega arith)
next_power-scale (suc fuel) zero p n h above below = ground arith
next_power-scale (suc fuel) (suc d) p n h above below =
    ground
      (arith, next_power-scale fuel d (p + p) n (omega arith) above below, scale_grows d (p + p))

next_power-width : (d n : ℕ) → d < 64 → n ≤ width d → width d < n + n → next_power 64 1 n ≡ width d
next_power-width d n h above below =
    next_power-scale 64 d 1 n (omega arith) (omega (arith, scale-width d))
      (omega (arith, scale-width d))
    ∙ scale-width d

length-place_item :
    (i : Item) (items : List Item) → length (place_item i items) ≡ suc (length items)
unfolding place_item
length-place_item i [] = refl
length-place_item i (j ∷ items) = ground (arith, length-place_item i items)

length-sort_items : (items : List Item) → length (sort_items items) ≡ length items
unfolding sort_items
length-sort_items [] = refl
length-sort_items (i ∷ items) =
    omega (arith, length-place_item i (sort_items items), length-sort_items items)

length-map : {A B : Type 0} → (f : A → B) (xs : List A) → length (map f xs) ≡ length xs
length-map f [] = refl
length-map f (x ∷ xs) = ap suc (length-map f xs)

length-replicate : (n : ℕ) (a : ℕ) → length (replicate n a) ≡ n
length-replicate zero a = refl
length-replicate (suc n) a = ap suc (length-replicate n a)

take-drop : (n : ℕ) (xs : List ℕ) → take n xs ++ drop n xs ≡ xs
take-drop zero xs = refl
take-drop (suc n) [] = refl
take-drop (suc n) (x ∷ xs) = ap (λ ys. x ∷ ys) (take-drop n xs)

length-take_half : (n m : ℕ) (xs : List ℕ) → length xs ≡ n + m → length (take n xs) ≡ n
length-take_half zero m xs e = refl
length-take_half (suc n) m [] e = absurd (omega arith)
length-take_half (suc n) m (x ∷ xs) e = omega (arith, length-take_half n m xs (omega arith))

length-drop_half : (n m : ℕ) (xs : List ℕ) → length xs ≡ n + m → length (drop n xs) ≡ m
length-drop_half zero m xs e = omega (arith, e)
length-drop_half (suc n) m [] e = absurd (omega arith)
length-drop_half (suc n) m (x ∷ xs) e = length-drop_half n m xs (omega arith)

module _ (blake3 : Bytes → ℕ) where
  -- The hash of a tree of depth d, from its root down: that of the two halves of its leaves.
  abbrev pub tree_root : ℕ → List ℕ → ℕ
  tree_root zero leaves = get_or leaves 0 0
  tree_root (suc d) leaves =
      node blake3 (tree_root d (take (width d) leaves)) (tree_root d (drop (width d) leaves))

  abbrev rounds : ℕ → List ℕ → List ℕ
  rounds zero level = level
  rounds (suc d) level = next_level blake3 (rounds d level)

  rounds-next_level :
      (d : ℕ) (level : List ℕ) → rounds d (next_level blake3 level) ≡ rounds (suc d) level
  rounds-next_level zero level = refl
  rounds-next_level (suc d) level = ap (next_level blake3) (rounds-next_level d level)

  length-next_level :
      (n : ℕ) (level : List ℕ) → length level ≡ n + n → length (next_level blake3 level) ≡ n
  unfolding next_level
  length-next_level zero [] e = refl
  length-next_level zero (l ∷ level) e = absurd (omega arith)
  length-next_level (suc n) [] e = absurd (omega arith)
  length-next_level (suc n) (l ∷ []) e = absurd (omega arith)
  length-next_level (suc n) (l ∷ r ∷ level) e = ap suc (length-next_level n level (omega arith))

  -- Each round turns the trees of a level that stand first into their roots.
  rounds-tree_root :
      (d : ℕ) (leaves rest : List ℕ)
      → length leaves ≡ width d
      → rounds d (leaves ++ rest) ≡ tree_root d leaves ∷ rounds d rest
  unfolding next_level
  rounds-tree_root zero [] rest e = absurd (omega arith)
  rounds-tree_root zero (x ∷ []) rest e = refl
  rounds-tree_root zero (x ∷ y ∷ leaves) rest e = absurd (omega arith)
  rounds-tree_root (suc d) leaves rest e =
      let l = take (width d) leaves in
      let r = drop (width d) leaves in
      let whole : leaves ++ rest ≡ l ++ (r ++ rest) =
        ap (λ xs. xs ++ rest) (sym (take-drop (width d) leaves)) ∙ append_assoc l r rest in
      ap (λ xs. next_level blake3 (rounds d xs)) whole
      ∙ ap (next_level blake3) (
          rounds-tree_root d l (r ++ rest) (length-take_half (width d) (width d) leaves e)
          ∙ ap (λ xs. tree_root d l ∷ xs)
              (rounds-tree_root d r rest (length-drop_half (width d) (width d) leaves e)))

  rounds_empty : (d : ℕ) → rounds d [] ≡ []
  unfolding next_level
  rounds_empty zero = refl
  rounds_empty (suc d) = ap (next_level blake3) (rounds_empty d)

  reduce-rounds :
      (fuel d : ℕ) (level : List ℕ)
      → d ≤ fuel
      → length level ≡ width d
      → reduce blake3 fuel level ≡ rounds d level
  unfolding reduce
  reduce-rounds zero zero level h e = refl
  reduce-rounds zero (suc d) level h e = absurd (omega arith)
  reduce-rounds (suc fuel) zero level h e = rw e refl
  reduce-rounds (suc fuel) (suc d) level h e =
      let many : ltb 1 (length level) ≡ true = ground (arith, width_pos d) in
      rw many (
        reduce-rounds fuel d (next_level blake3 level) (omega arith)
          (length-next_level (width d) level e)
        ∙ rounds-next_level d level)

  reduce_root :
      (d : ℕ) (leaves : List ℕ)
      → d ≤ 64
      → length leaves ≡ width d
      → get_or (reduce blake3 64 leaves) 0 0 ≡ tree_root d leaves
  reduce_root d leaves h e =
      ap (λ xs. get_or xs 0 0)
        (reduce-rounds 64 d leaves h e
          ∙ ap (rounds d) (sym (append_empty leaves))
          ∙ rounds-tree_root d leaves [] e)

length-leaves :
    (blake3 : Bytes → ℕ) (items : List Item)
    → length (map (leaf blake3) (sort_items items)) ≡ length items
length-leaves blake3 items = length-map (leaf blake3) (sort_items items) ∙ length-sort_items items

-- `leaves.resize(target, *leaves.last())`
abbrev pub padded : ℕ → List ℕ → List ℕ
padded d leaves = leaves ++ replicate (width d - length leaves) (last_or leaves 0)

pad-width :
    (d : ℕ) (leaves : List ℕ)
    → d < 64
    → length leaves ≤ width d
    → width d < length leaves + length leaves
    → pad leaves ≡ padded d leaves
unfolding pad
pad-width d leaves h above below =
    let target = next_power-width d (length leaves) h above below in
    elim (Bool-cases (nat_beq (width d) (length leaves))) [
      | inl full ↦
          let none_left : width d - length leaves ≡ 0 = ground arith in
          rw (target, full, none_left) (sym (append_empty leaves))
      | inr short ↦ rw (target, short) refl
    ]

length-padded :
    (d : ℕ) (leaves : List ℕ) → length leaves ≤ width d → length (padded d leaves) ≡ width d
length-padded d leaves above =
    let missing : List ℕ = replicate (width d - length leaves) (last_or leaves 0) in
    omega (
      arith,
      length-append leaves missing,
      length-replicate (width d - length leaves) (last_or leaves 0),
    )

-- The loop over the levels computes the hash of a binary tree that is defined from its root down. For
-- up to 2^63 items, the root of n items is that of the tree of the least depth whose 2^d leaves hold
-- them, over the leaves of the sorted items with the last leaf repeated.
pub root_is_tree_root :
    (blake3 : Bytes → ℕ) (items : List Item) (d : ℕ)
    → d < 64
    → length items ≤ width d
    → width d < length items + length items
    → root blake3 items ≡ tree_root blake3 d (padded d (map (leaf blake3) (sort_items items)))
unfolding root
root_is_tree_root blake3 items d h above below =
    nonempty (map (leaf blake3) (sort_items items)) (length-leaves blake3 items)
  where
    nonempty :
        (leaves : List ℕ)
        → length leaves ≡ length items
        → elim leaves [
          | [] ↦ empty_root blake3
          | l ∷ rest ↦ get_or (reduce blake3 64 (pad (l ∷ rest))) 0 0
        ]
          ≡ tree_root blake3 d (padded d leaves)
    nonempty [] e = absurd (omega (arith, width_pos d))
    nonempty (l ∷ rest) e =
        ap (λ xs. get_or (reduce blake3 64 xs) 0 0)
          (pad-width d (l ∷ rest) h (omega arith) (omega arith))
        ∙ reduce_root blake3 d (padded d (l ∷ rest)) (omega arith)
            (length-padded d (l ∷ rest) (omega arith))
