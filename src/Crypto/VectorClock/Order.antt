-- ===== src/Crypto/VectorClock/Order.antt =====
-- `happened_before` of src/crypto/phase_shift.rs against the causal order, and that order's laws.
use fluidic_node.Prelude.{
  ℕ, ◌≤◌, ◌<◌, ◌≡◌, ◌↔◌, inl, inr, Bool, true, false, ◌&&◌, not, refl, [], ◌∷◌, arith, ltb, leb,
  all, any, nat_beq, Bool-cases, nat_eq, pair_eq, list_eq,
}
use fluidic_node.Prelude.Map.{IsMap}
use fluidic_node.Crypto.VectorClock.{VectorClock, get, happened_before, concurrent_with}

-- The causal order by what the clocks read, a missing entry being 0.
abbrev pub Le : VectorClock → VectorClock → Type 0
Le a b = (node : ℕ) → get a node ≤ get b node

abbrev pub Precedes : VectorClock → VectorClock → Type 0
Precedes a b = Le a b × ((node : ℕ) × (get a node < get b node))

all_le :
    (f : ℕ → ℕ) (a : VectorClock) (node : ℕ)
    → all (λ e. leb e.1 (f e.0)) a ≡ true
    → get a node ≤ f node
all_le f [] node h = omega arith
all_le f ((k, t) ∷ a) node h = elim (Bool-cases (nat_beq k node)) [
  | inl same ↦ let e : k ≡ node = ground arith in rw (same, ← e) (ground arith)
  | inr other ↦ rw other (all_le f a node (ground arith))
]

le_all :
    (f : ℕ → ℕ) (a : VectorClock)
    → IsMap a
    → ((node : ℕ) → get a node ≤ f node)
    → all (λ e. leb e.1 (f e.0)) a ≡ true
le_all f [] m h = refl
le_all f ((k, t) ∷ a) m h = ground (arith, h k, le_all f a m.1 later)
  where
    later : (node : ℕ) → get a node ≤ f node
    later node = elim (Bool-cases (nat_beq k node)) [
      | inl same ↦ let e : k ≡ node = ground arith in rw (← e) (rw (m.0, get) (omega arith))
      | inr other ↦ rw (other, get) at (h node)
    ]

any_lt :
    (f : ℕ → ℕ) (b : VectorClock)
    → IsMap b
    → any (λ e. ltb (f e.0) e.1) b ≡ true
    → (node : ℕ) × (f node < get b node)
any_lt f [] m h = absurd (ground arith)
any_lt f ((k, t) ∷ b) m h = elim (Bool-cases (ltb (f k) t)) [
  | inl here ↦ (k, ground arith)
  | inr later ↦
      let w : (node : ℕ) × (f node < get b node) = any_lt f b m.1 (ground arith) in
      (w.0, ground (arith, w.1))
]

lt_any :
    (f : ℕ → ℕ) (b : VectorClock) (node : ℕ)
    → f node < get b node
    → any (λ e. ltb (f e.0) e.1) b ≡ true
lt_any f [] node h = absurd (omega arith)
lt_any f ((k, t) ∷ b) node h = ground (arith, lt_any f b node)

-- `happened_before` decides causal precedence: every component is at most the other's, and one is
-- smaller. It holds of clocks that list each node once.
pub happened_before_iff :
    (a b : VectorClock) → IsMap a → IsMap b → (happened_before a b ≡ true) ↔ Precedes a b
unfolding happened_before
happened_before_iff a b ma mb = (
  λ h. ((λ node. all_le (get b) a node (ground arith)), any_lt (get a) b mb (ground arith)),
  λ p. ground (arith, le_all (get b) a ma p.0, lt_any (get a) b p.1.0 p.1.1),
)

Precedes-irrefl : (a : VectorClock) → ¬ Precedes a a
Precedes-irrefl a p = let k = p.1.1 in absurd (omega arith)

Precedes-trans : (a b c : VectorClock) → Precedes a b → Precedes b c → Precedes a c
Precedes-trans a b c p q =
    let n = q.1.0 in ((λ node. omega (arith, p.0 node, q.0 node)), (n, omega (arith, p.0 n, q.1.1)))

-- Between clocks that list each node once, `happened_before` is transitive, never goes both ways
-- (so never from a clock to itself), and leaves exactly the concurrent pairs.
pub happened_before_order :
    (a b c : VectorClock)
    → IsMap a
    → IsMap b
    → IsMap c
    → (happened_before a b ≡ true → happened_before b c ≡ true → happened_before a c ≡ true)
      × (happened_before a b ≡ true → happened_before b a ≡ false)
      × ((concurrent_with a b ≡ true) ↔ ((¬ Precedes a b) × (¬ Precedes b a)))
unfolding concurrent_with
happened_before_order a b c ma mb mc = (
  (λ p q. (happened_before_iff a c ma mc).1 (
      Precedes-trans a b c ((happened_before_iff a b ma mb).0 p)
        ((happened_before_iff b c mb mc).0 q))),
  (λ p. elim (Bool-cases (happened_before b a)) [
    | inl q ↦ absurd (
        Precedes-irrefl a (
          Precedes-trans a b a ((happened_before_iff a b ma mb).0 p)
            ((happened_before_iff b a mb ma).0 q)))
    | inr q ↦ q
  ]),
  (
    (λ h. (
      (λ p. let e = (happened_before_iff a b ma mb).1 p in absurd (ground arith)),
      (λ p. let e = (happened_before_iff b a mb ma).1 p in absurd (ground arith)),
    )),
    (λ n.
        both_false (happened_before a b) (happened_before b a)
          (λ p. n.0 ((happened_before_iff a b ma mb).0 p))
          (λ p. n.1 ((happened_before_iff b a mb ma).0 p))),
  ),
)
  where
    both_false : (x y : Bool) → ¬ (x ≡ true) → ¬ (y ≡ true) → (not x && not y) ≡ true
    both_false x y h k = ground arith
