-- ===== src/State/Merkle/Tests.antt =====
-- Runs for src/state/merkle.rs.
use fluidic_node.Prelude.{◌≡◌, refl, List, [], ◌∷◌, length, map, arith}
use fluidic_node.State.Merkle.{Item, pad, next_power, root, leaf, sort_items}
use fluidic_node.State.Merkle.Tree.{tree_root, padded, root_is_tree_root}

three-pad : pad (4 ∷ 5 ∷ 6 ∷ []) ≡ 4 ∷ 5 ∷ 6 ∷ 6 ∷ []
unfolding pad next_power
three-pad = refl

abbrev items : List Item
items = (99 ∷ [], 51 ∷ []) ∷ (97 ∷ [], 49 ∷ []) ∷ (98 ∷ [], 50 ∷ []) ∷ []

root_is_tree_root_example :
    root length items ≡ tree_root length 2 (padded 2 (map (leaf length) (sort_items items)))
root_is_tree_root_example =
    root_is_tree_root length items 2 (omega arith) (omega arith) (omega arith)
