-- ===== src/Consensus/Dag/Causality.antt =====
-- `validate_or_derive` of src/consensus/dag.rs. Error texts are constructors.
use fluidic_node.Prelude.{
  ℕ, ◌+◌, ◌≤◌, ◌<◌, ◌≡◌, ◌≢◌, ◌⊎◌, ◌↔◌, ◌∙◌, refl, not, [], ◌∷◌, Option, none, some, if◌then◌else◌,
  ltb, nat_beq, Bool-cases, inl, inr, arith, u64_mod, add_u64, nat_eq, Result, ok, err,
  Option-cases,
}
use fluidic_node.Prelude.Map.{lookup, contains_key, lookup-insert, IsMap}
use fluidic_node.Crypto.VectorClock.{VectorClock, merge, get, tick}
use fluidic_node.Crypto.VectorClock.Order.{Le}
use fluidic_node.Crypto.VectorClock.Update.{
  get-merge, merge-IsMap, tick-IsMap, tick-happened_before,
}
use fluidic_node.Crypto.Shift.Stateful.{StatefulShift}
use fluidic_node.Consensus.Dag.{VectorClockDag, account_tip, place, advanced}

pub data ClockError : Type 0 where
  bad_own_time : ℕ → ℕ → ClockError
  unseen_node : ℕ → ℕ → ClockError
  missing_own : ClockError

-- The `for` over the entries of a provided clock.
unfoldable pub check_entries : ℕ → ℕ → VectorClock → VectorClock → Option ClockError
check_entries sender expected max_clock [] = none
check_entries sender expected max_clock ((node, time) ∷ c) =
    if nat_beq node sender
    then (if not (nat_beq time expected)
        then some (bad_own_time expected time)
        else check_entries sender expected max_clock c)
    else if ltb (get max_clock node) time
    then some (unseen_node node time)
    else check_entries sender expected max_clock c

unfoldable pub validate_or_derive :
    ℕ → Option VectorClock → VectorClockDag → Result VectorClock ClockError
validate_or_derive sender provided d =
    let expected_own : ℕ = add_u64 (get (account_tip sender d) sender) 1 in
    elim provided [
      | some c ↦ elim (check_entries sender expected_own d.max_clock c) [
        | some e ↦ err e
        | none ↦ if not (contains_key sender c) then err missing_own else ok c
      ]
      | none ↦ ok (tick sender (account_tip sender d)).0
    ]

-- Every account's clock is a map and reads at most the maximum that the DAG has observed.
abbrev pub IsObserved : VectorClockDag → Type 0
IsObserved d =
    (account : ℕ) → IsMap (account_tip account d) × Le (account_tip account d) d.max_clock

account_tip-place :
    (account h now depth : ℕ) (shift : StatefulShift) (d : VectorClockDag)
    → account_tip account (place h shift now depth d) ≡ (
        if nat_beq shift.sender account
        then advanced (lookup account d.account_tips) shift.vector_clock
        else account_tip account d)
unfolding account_tip place
account_tip-place account h now depth shift d = ground (
  arith,
  lookup-insert account shift.sender
      (advanced (lookup shift.sender d.account_tips) shift.vector_clock) d.account_tips,
)

place-IsObserved :
    (h now depth : ℕ) (shift : StatefulShift) (d : VectorClockDag)
    → IsMap shift.vector_clock
    → IsObserved d
    → IsObserved (place h shift now depth d)
unfolding account_tip place
place-IsObserved h now depth shift d u o account =
    let (om, ole) = o account in
    elim (Bool-cases (nat_beq shift.sender account)) [
      | inl own ↦ elim (Option-cases (lookup account d.account_tips)) [
        | inl fresh ↦
            let e : account_tip account (place h shift now depth d) ≡ shift.vector_clock =
              account_tip-place account h now depth shift d ∙ rw (own, fresh) refl in
            rw e (u, λ k. omega (arith, get-merge d.max_clock shift.vector_clock k u))
        | inr (old, there) ↦
            let e : account_tip account (place h shift now depth d) ≡ merge old shift.vector_clock =
              account_tip-place account h now depth shift d ∙ rw (own, there) refl in
            let m : IsMap old = rw there at om in
            let le : Le old d.max_clock = rw there at ole in
            rw e (
              merge-IsMap old shift.vector_clock m,
              λ k. omega (
                arith,
                get-merge d.max_clock shift.vector_clock k u,
                get-merge old shift.vector_clock k u,
                le k,
              ),
            )
      ]
      | inr other ↦
          let e : account_tip account (place h shift now depth d) ≡ account_tip account d =
            account_tip-place account h now depth shift d ∙ rw other refl in
          rw e (om, λ k. omega (arith, get-merge d.max_clock shift.vector_clock k u, ole k))
    ]

entries_sound :
    (sender x : ℕ) (m c : VectorClock)
    → check_entries sender x m c ≡ none
    → ((lookup sender c ≡ none) ⊎ (lookup sender c ≡ some x))
      × ((k : ℕ) → k ≢ sender → get c k ≤ get m k)
unfolding check_entries
entries_sound sender x m [] h = (inl refl, λ k ne. omega arith)
entries_sound sender x m ((j, t) ∷ c) h =
    let rest : check_entries sender x m c ≡ none = ground arith in
    let ih = entries_sound sender x m c rest in
    (ground (arith, ih), λ k ne. ground (arith, ih.1 k ne))

entries_complete :
    (sender x : ℕ) (m c : VectorClock)
    → IsMap c
    → ((lookup sender c ≡ none) ⊎ (lookup sender c ≡ some x))
    → ((k : ℕ) → k ≢ sender → get c k ≤ get m k)
    → check_entries sender x m c ≡ none
unfolding check_entries
entries_complete sender x m [] u h le = refl
entries_complete sender x m ((j, t) ∷ c) u h le =
    ground (arith, le j, u.0, entries_complete sender x m c u.1 tail_own later)
  where
    tail_own : (lookup sender c ≡ none) ⊎ (lookup sender c ≡ some x)
    tail_own = ground arith

    later : (k : ℕ) → k ≢ sender → get c k ≤ get m k
    later k ne = elim (Bool-cases (nat_beq j k)) [
      | inl same ↦ let e : j ≡ k = ground arith in rw (← e) (rw (u.0, get) (omega arith))
      | inr other ↦ rw (other, get) at (le k ne)
    ]

-- A provided clock is accepted, unchanged, exactly when its sender's own time is one more than the
-- sender's last and every other node's time is one that the DAG has observed. The clock lists each
-- node once, and the sender's time has room to grow.
pub validate_or_derive_iff :
    (sender : ℕ) (c : VectorClock) (d : VectorClockDag)
    → IsMap c
    → get (account_tip sender d) sender + 1 < u64_mod
    → (validate_or_derive sender (some c) d ≡ ok c) ↔ (
        (get c sender ≡ get (account_tip sender d) sender + 1)
        × ((k : ℕ) → k ≢ sender → get c k ≤ get d.max_clock k))
unfolding validate_or_derive
validate_or_derive_iff sender c d u b = (
  λ h.
      let clean : check_entries sender (add_u64 (get (account_tip sender d) sender) 1) d.max_clock c
          ≡ none =
        ground arith in
      let s =
        entries_sound sender (add_u64 (get (account_tip sender d) sender) 1) d.max_clock c clean in
      (ground (arith, s.0), s.1),
  λ p. ground (
    arith,
    entries_complete sender (add_u64 (get (account_tip sender d) sender) 1) d.max_clock c u
        (ground (arith, p.0)) p.1,
  ),
)

-- The clock that a sender without one is given would pass the check itself.
derived-valid :
    (sender : ℕ) (d : VectorClockDag)
    → IsObserved d
    → get (account_tip sender d) sender + 1 < u64_mod
    → validate_or_derive sender (some (tick sender (account_tip sender d)).0) d
      ≡ validate_or_derive sender none d
unfolding validate_or_derive
derived-valid sender d o b =
    let t = tick-happened_before sender (account_tip sender d) (o sender).0 b in
    let c : VectorClock = (tick sender (account_tip sender d)).0 in
    (validate_or_derive_iff sender c d (tick-IsMap sender (account_tip sender d) (o sender).0) b).1
      (t.2 ∙ t.0, λ k ne. omega (arith, t.1 k ne, (o sender).1 k))
