-- ===== src/Prelude/Sorted.antt =====
-- The entries of a map sorted by key, as `iter().collect()` followed by `sort_by` gives them.
use Prim.Native.Nat.{ℕ, ◌≤◌, ◌<◌}
use mathlib.Core.Path.{◌≡◌, refl, sym, ◌∙◌, ap₂}
use mathlib.Core.Bool.{false}
use mathlib.Core.Option.{none, some}
use mathlib.Core.List.{[], ◌∷◌}
use mathlib.Core.Logic.{inl, inr}
use native.Mathlib.Omega.{arith}
use fluidic_node.Prelude.Tests.{ltb, leb, nat_beq, if◌then◌else◌, Bool-cases, none_ne_some}
use fluidic_node.Prelude.Eq.{nat_eq}
use fluidic_node.Prelude.Map.{Map, lookup, IsMap}

module _ {V : Type 0} where
  unfoldable pub place_entry : ℕ × V → Map ℕ V → Map ℕ V
  place_entry e [] = e ∷ []
  place_entry e (f ∷ m) = if leb e.0 f.0 then e ∷ f ∷ m else f ∷ place_entry e m

  unfoldable pub sort_entries : Map ℕ V → Map ℕ V
  sort_entries [] = []
  sort_entries (e ∷ m) = place_entry e (sort_entries m)

  -- every key is greater than the given one
  Above : ℕ → Map ℕ V → Type 0
  Above k [] = Unit
  Above k ((j, v) ∷ m) = (k < j) × Above k m

  Ascending : Map ℕ V → Type 0
  Ascending [] = Unit
  Ascending ((k, v) ∷ m) = Above k m × Ascending m

  lookup-place_entry :
      (i k : ℕ) (v : V) (m : Map ℕ V)
      → lookup k m ≡ none
      → lookup i (place_entry (k, v) m) ≡ (if nat_beq k i then some v else lookup i m)
  unfolding place_entry
  lookup-place_entry i k v [] e = refl
  lookup-place_entry i k v ((j, w) ∷ m) e = ground (arith, lookup-place_entry i k v m)

  lookup-sort_entries : (i : ℕ) (m : Map ℕ V) → IsMap m → lookup i (sort_entries m) ≡ lookup i m
  unfolding sort_entries
  lookup-sort_entries i [] h = refl
  lookup-sort_entries i ((k, v) ∷ m) h =
      let gone : lookup k (sort_entries m) ≡ none = lookup-sort_entries k m h.1 ∙ h.0 in
      ground (arith, lookup-place_entry i k v (sort_entries m) gone, lookup-sort_entries i m h.1)

  Above-weaken : (i k : ℕ) (m : Map ℕ V) → i < k → Above k m → Above i m
  unfolding Above
  Above-weaken i k [] h a = tt
  Above-weaken i k ((j, v) ∷ m) h a = (omega (arith, a.0, h), Above-weaken i k m h a.1)

  Above-place_entry :
      (i k : ℕ) (v : V) (m : Map ℕ V) → i < k → Above i m → Above i (place_entry (k, v) m)
  unfolding place_entry Above
  Above-place_entry i k v [] h a = (h, tt)
  Above-place_entry i k v ((j, w) ∷ m) h a = elim (Bool-cases (leb k j)) [
    | inl first ↦ rw first (h, a)
    | inr later ↦ rw later (a.0, Above-place_entry i k v m h a.1)
  ]

  Ascending-place_entry :
      (k : ℕ) (v : V) (m : Map ℕ V)
      → lookup k m ≡ none
      → Ascending m
      → Ascending (place_entry (k, v) m)
  unfolding place_entry Ascending Above
  Ascending-place_entry k v [] e a = (tt, tt)
  Ascending-place_entry k v ((j, w) ∷ m) e a = elim (Bool-cases (nat_beq j k)) [
    | inl same ↦ let bad : some w ≡ none = rw same at e in absurd (none_ne_some (sym bad))
    | inr apart ↦ elim (Bool-cases (leb k j)) [
      | inl first ↦ let lt : k < j = ground arith in rw first ((lt, Above-weaken k j m lt a.0), a)
      | inr later ↦
          let lt : j < k = ground arith in
          rw later
            (Above-place_entry j k v m lt a.0, Ascending-place_entry k v m (rw apart at e) a.1)
    ]
  ]

  Ascending-sort_entries : (m : Map ℕ V) → IsMap m → Ascending (sort_entries m)
  unfolding sort_entries Ascending
  Ascending-sort_entries [] h = tt
  Ascending-sort_entries ((k, v) ∷ m) h =
      Ascending-place_entry k v (sort_entries m) (lookup-sort_entries k m h.1 ∙ h.0)
        (Ascending-sort_entries m h.1)

  lookup_below : (i k : ℕ) (m : Map ℕ V) → i ≤ k → Above k m → lookup i m ≡ none
  unfolding Above
  lookup_below i k [] h a = refl
  lookup_below i k ((j, v) ∷ m) h a =
      let apart : nat_beq j i ≡ false = ground (arith, a.0) in rw apart (lookup_below i k m h a.1)

  heads_agree :
      (k j : ℕ) (v w : V) (m n : Map ℕ V)
      → Above k m
      → Above j n
      → ((i : ℕ) → lookup i ((k, v) ∷ m) ≡ lookup i ((j, w) ∷ n))
      → (k ≡ j) × (v ≡ w)
  unfolding Above
  heads_agree k j v w m n a b same =
      let first : lookup k ((j, w) ∷ n) ≡ some v = ground (arith, same k) in
      let second : lookup j ((k, v) ∷ m) ≡ some w = ground (arith, same j) in
      elim (Bool-cases (nat_beq k j)) [
        | inl own ↦ (ground arith, ground (arith, first))
        | inr apart ↦ elim (Bool-cases (ltb k j)) [
          | inl less ↦
              let lt : k < j = ground arith in
              let none_there : lookup k n ≡ none = lookup_below k j n (omega (arith, lt)) b in
              absurd (ground (arith, first, none_there))
          | inr more ↦
              let lt : j < k = ground arith in
              let none_there : lookup j m ≡ none = lookup_below j k m (omega (arith, lt)) a in
              absurd (ground (arith, second, none_there))
        ]
      ]

  -- Ascending maps that read alike are equal.
  Ascending-unique :
      (m n : Map ℕ V) → Ascending m → Ascending n → ((i : ℕ) → lookup i m ≡ lookup i n) → m ≡ n
  unfolding Ascending
  Ascending-unique [] [] a b same = refl
  Ascending-unique [] ((j, w) ∷ n) a b same = absurd (ground (arith, same j))
  Ascending-unique ((k, v) ∷ m) [] a b same = absurd (ground (arith, same k))
  Ascending-unique ((k, v) ∷ m) ((j, w) ∷ n) a b same =
      let (key, value) = heads_agree k j v w m n a.0 b.0 same in
      let tails : m ≡ n = Ascending-unique m n a.1 b.1 (λ i. elim (Bool-cases (nat_beq k i)) [
        | inl own ↦
            let at_i : k ≡ i = ground arith in
            lookup_below i k m (omega (arith, at_i)) a.0
            ∙ sym (lookup_below i j n (omega (arith, at_i, key)) b.0)
        | inr other ↦ ground (arith, same i, key)
      ]) in
      ap₂ (λ e r. e ∷ r) (ap₂ (λ x y. (x, y)) key value) tails

  pub sort_entries_unique :
      (m n : Map ℕ V)
      → IsMap m
      → IsMap n
      → ((i : ℕ) → lookup i m ≡ lookup i n)
      → sort_entries m ≡ sort_entries n
  sort_entries_unique m n hm hn same =
      Ascending-unique (sort_entries m) (sort_entries n) (Ascending-sort_entries m hm)
        (Ascending-sort_entries n hn)
        (λ i. lookup-sort_entries i m hm ∙ same i ∙ sym (lookup-sort_entries i n hn))
