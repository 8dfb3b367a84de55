-- ===== src/Consensus/Dag/DoubleSpend/Complete.antt =====
-- What it means that `detect_double_spends` of src/consensus/dag.rs finds nothing.
use fluidic_node.Prelude.{
  ℕ, ◌+◌, ◌≤◌, ◌<◌, ◌≡◌, ◌≢◌, ◌⊎◌, ◌∙◌, sym, ap, inl, inr, refl, true, List, [], ◌∷◌, ◌++◌, some,
  if◌then◌else◌, ltb, nat_beq, add_u128, nat_eq, arith, Mem, Bool-cases, u128_mod, none_ne_some,
}
use fluidic_node.Prelude.Map.{Map, lookup, update, unwrap_or, sum_by, lookup-insert}
use fluidic_node.Crypto.VectorClock.{VectorClock, concurrent_with}
use fluidic_node.Consensus.Dag.{VectorClockDag, DagNode, double_spend}
use fluidic_node.Consensus.Dag.DoubleSpend.{
  Entry, by_sender, earlier, place_by_key, sort_by_key, overspends, sender_violations, violations,
  detect_double_spends,
}

abbrev pub amount_of : DagNode → ℕ
amount_of n = n.shift.amount

spent_by : List Entry → ℕ
spent_by [] = 0
spent_by (e ∷ es) = amount_of e.1 + spent_by es

append_nil : {A : Type 0} (xs ys : List A) → xs ++ ys ≡ [] → (xs ≡ []) × (ys ≡ [])
append_nil [] ys h = (refl, h)
append_nil (x ∷ xs) ys h = absurd (ground arith)

Mem-append_right : {A : Type 0} (a : A) (xs ys : List A) → Mem a ys → Mem a (xs ++ ys)
Mem-append_right a [] ys m = m
Mem-append_right a (x ∷ xs) ys m = inr (Mem-append_right a xs ys m)

Mem-append_left : {A : Type 0} (a : A) (xs ys : List A) → Mem a xs → Mem a (xs ++ ys)
Mem-append_left a [] ys m = absurd m
Mem-append_left a (x ∷ xs) ys (inl e) = inl e
Mem-append_left a (x ∷ xs) ys (inr m) = inr (Mem-append_left a xs ys m)

concurrent_comm : (c d : VectorClock) → concurrent_with c d ≡ true → concurrent_with d c ≡ true
unfolding concurrent_with
concurrent_comm c d h = ground arith

Mem-place_by_key :
    (a e : Entry) (es : List Entry) → ((a ≡ e) ⊎ Mem a es) → Mem a (place_by_key e es)
unfolding place_by_key
Mem-place_by_key a e [] (inl p) = inl p
Mem-place_by_key a e [] (inr m) = absurd m
Mem-place_by_key a e (f ∷ es) m = elim (Bool-cases (earlier e f)) [
  | inl before ↦ rw before m
  | inr after ↦ rw after (later m (Mem-place_by_key a e es))
]
  where
    later :
        ((a ≡ e) ⊎ ((a ≡ f) ⊎ Mem a es))
        → (((a ≡ e) ⊎ Mem a es) → Mem a (place_by_key e es))
        → ((a ≡ f) ⊎ Mem a (place_by_key e es))
    later (inl p) go = inr (go (inl p))
    later (inr (inl p)) go = inl p
    later (inr (inr m)) go = inr (go (inr m))

Mem-sort_by_key : (a : Entry) (es : List Entry) → Mem a es → Mem a (sort_by_key es)
unfolding sort_by_key
Mem-sort_by_key a [] m = absurd m
Mem-sort_by_key a (e ∷ es) (inl p) = Mem-place_by_key a e (sort_by_key es) (inl p)
Mem-sort_by_key a (e ∷ es) (inr m) =
    Mem-place_by_key a e (sort_by_key es) (inr (Mem-sort_by_key a es m))

spent_by-place :
    (e : Entry) (es : List Entry) → spent_by (place_by_key e es) ≡ amount_of e.1 + spent_by es
unfolding spent_by place_by_key
spent_by-place e [] = refl
spent_by-place e (f ∷ es) = ground (arith, spent_by-place e es)

spent_by-sort : (es : List Entry) → spent_by (sort_by_key es) ≡ spent_by es
unfolding spent_by sort_by_key
spent_by-sort [] = refl
spent_by-sort (e ∷ es) = omega (arith, spent_by-place e (sort_by_key es), spent_by-sort es)

-- An inner loop that reports nothing has seen no concurrent entry that the balance does not cover.
overspends_none :
    (n1 : DagNode) (balance spent h2 : ℕ) (n2 : DagNode) (es : List Entry)
    → spent + spent_by es < u128_mod
    → overspends n1 balance spent es ≡ []
    → Mem (h2, n2) es
    → concurrent_with n1.shift.vector_clock n2.shift.vector_clock ≡ true
    → spent + amount_of n2 ≤ balance
unfolding overspends spent_by
overspends_none n1 balance spent h2 n2 [] b none_found m c = absurd m
overspends_none n1 balance spent h2 n2 ((h, n) ∷ es) b none_found m c =
    elim (Bool-cases (concurrent_with n1.shift.vector_clock n.shift.vector_clock)) [
      | inl beside ↦
          let total : ℕ = add_u128 spent n.shift.amount in
          let exact : total ≡ spent + n.shift.amount = omega arith in
          elim (Bool-cases (ltb balance total)) [
            | inl over ↦
                let bad : double_spend h ∷ overspends n1 balance total es ≡ [] =
                  rw (beside, over, overspends) at none_found in
                absurd (ground arith)
            | inr fits ↦ elim m [
              | inl e ↦ let same : n2 ≡ n = ap (λ x. x.1) e in rw same (ground (arith, exact))
              | inr later ↦
                  let ih =
                    overspends_none n1 balance total h2 n2 es (omega (arith, exact))
                      (rw (beside, fits, overspends) at none_found) later c in
                  omega (arith, ih, exact)
            ]
          ]
      | inr apart ↦ elim m [
        | inl e ↦
            let same : n2 ≡ n = ap (λ x. x.1) e in
            let c' : concurrent_with n1.shift.vector_clock n.shift.vector_clock ≡ true =
              rw same at c in
            absurd (ground arith)
        | inr later ↦
            overspends_none n1 balance spent h2 n2 es (omega arith)
              (rw (apart, overspends) at none_found) later c
      ]
    ]

sender_violations_none :
    (balance h1 h2 : ℕ) (n1 n2 : DagNode) (es : List Entry)
    → spent_by es < u128_mod
    → sender_violations balance es ≡ []
    → Mem (h1, n1) es
    → Mem (h2, n2) es
    → h1 ≢ h2
    → concurrent_with n1.shift.vector_clock n2.shift.vector_clock ≡ true
    → amount_of n1 + amount_of n2 ≤ balance
unfolding sender_violations spent_by
sender_violations_none balance h1 h2 n1 n2 [] b clean m1 m2 ne c = absurd m1
sender_violations_none balance h1 h2 n1 n2 ((h, n) ∷ es) b clean m1 m2 ne c =
    let parts =
      append_nil (overspends n balance n.shift.amount es) (sender_violations balance es) clean in
    elim m1 [
      | inl e1 ↦
          let own : n1 ≡ n = ap (λ x. x.1) e1 in
          elim m2 [
            | inl e2 ↦ absurd (ne (ap (λ x. x.0) e1 ∙ sym (ap (λ x. x.0) e2)))
            | inr later ↦
                rw own
                  (overspends_none n balance n.shift.amount h2 n2 es b parts.0 later (rw own at c))
          ]
      | inr later1 ↦ elim m2 [
        | inl e2 ↦
            let own : n2 ≡ n = ap (λ x. x.1) e2 in
            let c' : concurrent_with n.shift.vector_clock n1.shift.vector_clock ≡ true =
              rw own at (concurrent_comm n1.shift.vector_clock n2.shift.vector_clock c) in
            let r = overspends_none n balance n.shift.amount h1 n1 es b parts.0 later1 c' in
            rw own (omega (arith, r))
        | inr later2 ↦
            sender_violations_none balance h1 h2 n1 n2 es (omega arith) parts.1 later1 later2 ne c
      ]
    ]

-- the entries gathered for a sender
abbrev group : ℕ → Map ℕ (List Entry) → List Entry
group account groups = unwrap_or (lookup account groups) []

spent_by-append : (es fs : List Entry) → spent_by (es ++ fs) ≡ spent_by es + spent_by fs
unfolding spent_by
spent_by-append [] fs = omega arith
spent_by-append (e ∷ es) fs = omega (arith, spent_by-append es fs)

-- One more node goes to the end of its sender's entries.
group-update :
    (account h : ℕ) (n : DagNode) (groups : Map ℕ (List Entry))
    → group account (update n.shift.sender [] (λ es. es ++ ((h, n) ∷ [])) groups) ≡ (
        if nat_beq n.shift.sender account
        then group account groups ++ ((h, n) ∷ [])
        else group account groups)
group-update account h n groups = ground (
  arith,
  lookup-insert account n.shift.sender (group n.shift.sender groups ++ ((h, n) ∷ [])) groups,
)

Mem-by_sender_old :
    (a : Entry) (account : ℕ) (m : Map ℕ DagNode) (groups : Map ℕ (List Entry))
    → Mem a (group account groups)
    → Mem a (group account (by_sender m groups))
unfolding by_sender
Mem-by_sender_old a account [] groups i = i
Mem-by_sender_old a account ((h, n) ∷ m) groups i =
    Mem-by_sender_old a account m (update n.shift.sender [] (λ es. es ++ ((h, n) ∷ [])) groups)
      (elim (Bool-cases (nat_beq n.shift.sender account)) [
        | inl own ↦
            rw (group-update account h n groups, own)
              (Mem-append_left a (group account groups) ((h, n) ∷ []) i)
        | inr other ↦ rw (group-update account h n groups, other) i
      ])

Mem-by_sender :
    (h : ℕ) (n : DagNode) (m : Map ℕ DagNode) (groups : Map ℕ (List Entry))
    → lookup h m ≡ some n
    → Mem (h, n) (group n.shift.sender (by_sender m groups))
unfolding by_sender
Mem-by_sender h n [] groups e = absurd (none_ne_some e)
Mem-by_sender h n ((k, x) ∷ m) groups e =
    let groups' = update x.shift.sender [] (λ es. es ++ ((k, x) ∷ [])) groups in
    elim (Bool-cases (nat_beq k h)) [
      | inl own ↦
          let same : x ≡ n = ground arith in
          let key : k ≡ h = ground arith in
          let self : nat_beq x.shift.sender x.shift.sender ≡ true = ground arith in
          let new : Mem (k, x) (group x.shift.sender groups') =
            rw (group-update x.shift.sender k x groups, self)
              (Mem-append_right (k, x) (group x.shift.sender groups) ((k, x) ∷ []) (inl refl)) in
          rw (← same, ← key) (Mem-by_sender_old (k, x) x.shift.sender m groups' new)
      | inr other ↦ Mem-by_sender h n m groups' (rw other at e)
    ]

spent_by-group :
    (account : ℕ) (m : Map ℕ DagNode) (groups : Map ℕ (List Entry))
    → spent_by (group account (by_sender m groups))
      ≤ spent_by (group account groups) + sum_by amount_of m
unfolding by_sender spent_by
spent_by-group account [] groups = omega arith
spent_by-group account ((h, n) ∷ m) groups =
    let groups' = update n.shift.sender [] (λ es. es ++ ((h, n) ∷ [])) groups in
    let ih = spent_by-group account m groups' in
    let u = group-update account h n groups in
    elim (Bool-cases (nat_beq n.shift.sender account)) [
      | inl own ↦
          let e : group account groups' ≡ group account groups ++ ((h, n) ∷ []) = u ∙ rw own refl in
          let s = ap spent_by e ∙ spent_by-append (group account groups) ((h, n) ∷ []) in
          omega (arith, ih, s)
      | inr other ↦
          let e : group account groups' ≡ group account groups = u ∙ rw other refl in
          omega (arith, ih, ap spent_by e)
    ]

violations_none :
    (account : ℕ) (balances : Map ℕ ℕ) (groups : Map ℕ (List Entry))
    → violations balances groups ≡ []
    → sender_violations (unwrap_or (lookup account balances) 0) (sort_by_key (group account groups))
      ≡ []
unfolding violations sender_violations sort_by_key
violations_none account balances [] clean = refl
violations_none account balances ((k, es) ∷ groups) clean =
    let parts =
      append_nil (sender_violations (unwrap_or (lookup k balances) 0) (sort_by_key es))
        (violations balances groups) clean in
    elim (Bool-cases (nat_beq k account)) [
      | inl own ↦ let same : k ≡ account = ground arith in rw (own, ← same) parts.0
      | inr other ↦ rw other (violations_none account balances groups parts.1)
    ]

-- When no double spend is detected, any two concurrent shifts of one sender in the DAG are covered
-- together by the sender's balance. The amounts in the DAG add up to less than 2 ^ 128.
pub detect_double_spends_none :
    (d : VectorClockDag) (h1 h2 : ℕ) (n1 n2 : DagNode)
    → sum_by amount_of d.nodes < u128_mod
    → detect_double_spends d ≡ []
    → lookup h1 d.nodes ≡ some n1
    → lookup h2 d.nodes ≡ some n2
    → h1 ≢ h2
    → n1.shift.sender ≡ n2.shift.sender
    → concurrent_with n1.shift.vector_clock n2.shift.vector_clock ≡ true
    → n1.shift.amount + n2.shift.amount ≤ unwrap_or (lookup n1.shift.sender d.balances) 0
unfolding detect_double_spends spent_by
detect_double_spends_none d h1 h2 n1 n2 b clean e1 e2 ne same c =
    let groups = by_sender d.nodes [] in
    let es : List Entry = group n1.shift.sender groups in
    let m1 = Mem-sort_by_key (h1, n1) es (Mem-by_sender h1 n1 d.nodes [] e1) in
    let m2 = Mem-sort_by_key (h2, n2) es (rw same (Mem-by_sender h2 n2 d.nodes [] e2)) in
    let fits : spent_by (sort_by_key es) < u128_mod =
      omega (arith, spent_by-sort es, spent_by-group n1.shift.sender d.nodes [], b) in
    sender_violations_none (unwrap_or (lookup n1.shift.sender d.balances) 0) h1 h2 n1 n2
      (sort_by_key es) fits (violations_none n1.shift.sender d.balances groups clean) m1 m2 ne c
