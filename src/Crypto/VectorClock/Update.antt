-- ===== src/Crypto/VectorClock/Update.antt =====
-- `tick` and `merge` of src/crypto/phase_shift.rs, by what the clocks read afterwards.
use fluidic_node.Prelude.{
  ℕ, ◌+◌, ◌<◌, ◌≡◌, ◌∙◌, ◌≢◌, inl, inr, true, refl, [], ◌∷◌, arith, nat_beq, max, Bool-cases,
  if◌then◌else◌, u64_mod, add_u64, nat_eq, pair_eq, list_eq,
}
use fluidic_node.Prelude.Map.{IsMap, update, lookup-insert, insert-IsMap}
use fluidic_node.Crypto.VectorClock.{VectorClock, get, tick, merge, happened_before}
use fluidic_node.Crypto.VectorClock.Order.{Le, happened_before_iff}

get-update :
    (node k : ℕ) (f : ℕ → ℕ) (c : VectorClock)
    → get (update k 0 f c) node ≡ (if nat_beq k node then f (get c k) else get c node)
get-update node k f c = ground (arith, lookup-insert node k (f (get c k)) c)

pub merge-IsMap : (a b : VectorClock) → IsMap a → IsMap (merge a b)
unfolding merge
merge-IsMap a [] m = m
merge-IsMap a ((k, t) ∷ b) m =
    merge-IsMap (update k 0 (λ x. max x t) a) b (insert-IsMap k (max (get a k) t) a m)

pub tick-IsMap : (node : ℕ) (c : VectorClock) → IsMap c → IsMap (tick node c).0
unfolding tick
tick-IsMap node c m = insert-IsMap node (add_u64 (get c node) 1) c m

-- Every node's time after a merge is the later of the two.
pub get-merge :
    (a b : VectorClock) (node : ℕ) → IsMap b → get (merge a b) node ≡ max (get a node) (get b node)
unfolding merge
get-merge a [] node m = omega arith
get-merge a ((k, t) ∷ b) node m = elim (Bool-cases (nat_beq k node)) [
  | inl same ↦
      let e : k ≡ node = ground arith in
      get-merge (update k 0 (λ x. max x t) a) b node m.1
      ∙ ground (arith, get-update node k (λ x. max x t) a, m.0)
  | inr other ↦
      get-merge (update k 0 (λ x. max x t) a) b node m.1
      ∙ ground (arith, get-update node k (λ x. max x t) a)
]

-- A merge is the least clock that is no earlier than either side.
pub merge_least :
    (a b c : VectorClock)
    → IsMap b
    → Le a (merge a b) × Le b (merge a b) × (Le a c → Le b c → Le (merge a b) c)
merge_least a b c m = (
  (λ node. omega (arith, get-merge a b node m)),
  (λ node. omega (arith, get-merge a b node m)),
  (λ p q node. omega (arith, get-merge a b node m, p node, q node)),
)

-- A tick adds one to its own node, moves no other, returns the new time, and so makes a later clock.
pub tick-happened_before :
    (node : ℕ) (c : VectorClock)
    → IsMap c
    → get c node + 1 < u64_mod
    → let (c', time) = tick node c in
      (time ≡ get c node + 1)
      × ((k : ℕ) → k ≢ node → get c' k ≡ get c k)
      × (get c' node ≡ time)
      × (happened_before c c' ≡ true)
unfolding tick
tick-happened_before node c m h = (
  own,
  (λ k ne. ground (arith, get-update k node (λ t. add_u64 t 1) c)),
  refl,
  (happened_before_iff c c' m (insert-IsMap node (add_u64 (get c node) 1) c m)).1
      ((λ k. ground (arith, get-update k node (λ t. add_u64 t 1) c)), (node, omega (arith, own))),
)
  where
    c' : VectorClock
    c' = update node 0 (λ t. add_u64 t 1) c

    own : get c' node ≡ get c node + 1
    own = ground (arith, get-update node node (λ t. add_u64 t 1) c)
