-- ===== src/Consensus/Dag/Termination.antt =====
-- The rounds of the `while` of `topological_order`, src/consensus/dag.rs.
use fluidic_node.Prelude.{
  ℕ, zero, suc, ◌+◌, ◌≤◌, ◌≡◌, ◌≢◌, List, [], ◌∷◌, ◌++◌, none, some, if◌then◌else◌, nat_beq, inl,
  inr, arith, refl, nat_eq, length, set, get_elem?, length-set, length-append, Option-cases,
  none_ne_some, ◌∙◌,
}
use fluidic_node.Prelude.Map.{Map, lookup, sum_by, sum_by-insert, insert as map_insert}
use fluidic_node.Consensus.Dag.{DagNode, VectorClockDag}
use fluidic_node.Consensus.Dag.Order.{
  pick_minimal_ready, swap_remove, init, last_or, release, order_loop, panicked, out_of_fuel,
  fuel_for, in_degrees, initial_ready, topological_order, exhausted,
}

length-init : (x : ℕ) (xs : List ℕ) → length (init (x ∷ xs)) ≡ length xs
length-init x [] = refl
length-init x (y ∷ xs) = omega (arith, length-init y xs)

length-swap_remove : (i x : ℕ) (xs : List ℕ) → length (swap_remove i (x ∷ xs)) ≡ length xs
unfolding swap_remove
length-swap_remove zero x xs = length-init (last_or (x ∷ xs) 0) xs
length-swap_remove (suc i) x xs =
    length-init x (set xs i (last_or (x ∷ xs) 0)) ∙ length-set xs i (last_or (x ∷ xs) 0)

-- Releasing children makes at most as many hashes ready as it takes edges away.
release-le :
    (cs : List ℕ) (deg deg' : Map ℕ ℕ) (ready ready' : List ℕ)
    → release cs deg ready ≡ some (deg', ready')
    → fuel_for deg' ready' ≤ fuel_for deg ready
unfolding release
release-le [] deg deg' ready ready' h = ground arith
release-le (c ∷ cs) deg deg' ready ready' h = elim (Option-cases (lookup c deg)) [
  | inl gone ↦
      let bad : none ≡ some (deg', ready') = rw (gone, release) at h in absurd (none_ne_some bad)
  | inr (zero, none_left) ↦
      let bad : none ≡ some (deg', ready') = rw (none_left, release) at h in
      absurd (none_ne_some bad)
  | inr (suc x, there) ↦
      let more : List ℕ = if nat_beq x 0 then ready ++ (c ∷ []) else ready in
      let h' : release cs (map_insert c x deg) more ≡ some (deg', ready') =
        rw (there, release) at h in
      let fewer : sum_by (λ x. x) (map_insert c x deg) + suc x ≡ sum_by (λ x. x) deg + x =
        ground (arith, sum_by-insert (λ x. x) c x deg) in
      let one : length more ≤ suc (length ready) = ground (arith, length-append ready (c ∷ [])) in
      omega (arith, release-le cs (map_insert c x deg) deg' more ready' h', fewer, one)
]

-- Given a round for each ready hash and each edge that is left, the loop does not run out of them:
-- it returns an order or panics.
order_loop_enough :
    (fuel : ℕ) (nodes : Map ℕ DagNode) (deg : Map ℕ ℕ) (ready order : List ℕ)
    → fuel_for deg ready ≤ fuel
    → order_loop fuel nodes deg ready order ≢ out_of_fuel
unfolding order_loop
order_loop_enough fuel nodes deg [] order b e = ground arith
order_loop_enough zero nodes deg (h ∷ hs) order b e = omega arith
order_loop_enough (suc fuel) nodes deg (h ∷ hs) order b e =
    elim (Option-cases (pick_minimal_ready nodes (h ∷ hs))) [
      | inl gone ↦ let bad : panicked ≡ out_of_fuel = rw (gone, order_loop) at e in ground arith
      | inr (idx, picked) ↦ elim (Option-cases (get_elem? (h ∷ hs) idx)) [
        | inl outside ↦
            let bad : panicked ≡ out_of_fuel = rw (picked, outside, order_loop) at e in ground arith
        | inr (best, here) ↦
            let ready : List ℕ = swap_remove idx (h ∷ hs) in
            let one : length ready ≡ length hs = length-swap_remove idx h hs in
            elim (Option-cases (lookup best nodes)) [
              | inl away ↦
                  order_loop_enough fuel nodes deg ready _ (omega (arith, one))
                    (rw (picked, here, away, order_loop) at e)
              | inr (n, there) ↦ elim (Option-cases (release n.children deg ready)) [
                | inl stuck ↦
                    let bad : panicked ≡ out_of_fuel =
                      rw (picked, here, there, stuck, order_loop) at e in
                    ground arith
                | inr ((deg', ready'), freed) ↦
                    order_loop_enough fuel nodes deg' ready' _
                      (omega (arith, one, release-le n.children deg deg' ready ready' freed))
                      (rw (picked, here, there, freed, order_loop) at e)
              ]
            ]
      ]
    ]

-- The rounds that `topological_order` grants its loop suffice on every DAG.
pub topological_order-ends : (d : VectorClockDag) → topological_order d ≢ exhausted
unfolding topological_order
topological_order-ends d e =
    let deg = in_degrees d.nodes [] in
    let ready = initial_ready d.roots deg in
    ground (arith, order_loop_enough (fuel_for deg ready) d.nodes deg ready [] (omega arith))
