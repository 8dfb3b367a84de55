-- ===== src/Prelude/Map.antt =====
-- `HashMap`, `BTreeMap` and `DashMap` as association lists. An iteration over a map reads the list
-- from the left: the order that a hash map leaves open is the order of the list.
use Prim.Native.Nat.{ℕ, ◌+◌, ◌≤◌}
use mathlib.Core.Path.{◌≡◌, refl}
use mathlib.Core.Bool.{Bool, true, false}
use mathlib.Core.Option.{Option, none, some}
use mathlib.Core.Option
use mathlib.Core.List.{List, [], ◌∷◌, map}
use mathlib.Core.Logic.{◌≢◌}
use fluidic_node.Prelude.Words.{sum}
use fluidic_node.Prelude.Lists.{All}
use native.Mathlib.Omega.{arith}
use fluidic_node.Prelude.Tests.{if◌then◌else◌}
use fluidic_node.Prelude.Eq.{HashKey, ◌==◌}

abbrev pub Map {ℓ κ} : Type ℓ → Type κ → Type (ℓ ⊔ κ)
Map K V = List (K × V)

-- `unwrap_or`
abbrev pub unwrap_or {ℓ} : {A : Type ℓ} → Option A → A → A
unwrap_or none d = d
unwrap_or (some a) d = a

abbrev pub is_some {ℓ} : {A : Type ℓ} → Option A → Bool
is_some none = false
is_some (some a) = true

abbrev pub is_none {ℓ} : {A : Type ℓ} → Option A → Bool
is_none none = true
is_none (some a) = false

-- the number read off an entry, 0 for a missing one
abbrev pub amount {ℓ} : {V : Type ℓ} → (V → ℕ) → Option V → ℕ
amount f none = 0
amount f (some v) = f v

-- no two elements are equal
abbrev pub Distinct {ℓ} : {K : Type ℓ} → List K → Type ℓ
Distinct [] = Unit
Distinct (k ∷ ks) = All (λ j. j ≢ k) ks × Distinct ks

module _ {ℓ κ} {K : Type ℓ} {V : Type κ} where
  -- the sum of a number read off each entry
  abbrev pub sum_by : (V → ℕ) → Map K V → ℕ
  sum_by f [] = 0
  sum_by f ((k, v) ∷ m) = f v + sum_by f m

  -- `values_mut` with a pure body
  abbrev pub map_values : (V → V) → Map K V → Map K V
  map_values f [] = []
  map_values f ((k, v) ∷ m) = (k, f v) ∷ map_values f m

  abbrev pub keys : Map K V → List K
  keys [] = []
  keys ((k, v) ∷ m) = k ∷ keys m

module _ {ℓ κ} {K : Type ℓ} {V : Type κ} ⦃e : HashKey K⦄ where
  abbrev pub lookup : K → Map K V → Option V
  lookup k [] = none
  lookup k ((j, v) ∷ m) = if j == k then some v else lookup k m

  abbrev pub contains_key : K → Map K V → Bool
  contains_key k m = is_some (lookup k m)

  -- An existing entry keeps its place; a new one comes last.
  abbrev pub insert : K → V → Map K V → Map K V
  insert k v [] = (k, v) ∷ []
  insert k v ((j, w) ∷ m) = if j == k then (j, v) ∷ m else (j, w) ∷ insert k v m

  abbrev pub erase : K → Map K V → Map K V
  erase k [] = []
  erase k ((j, w) ∷ m) = if j == k then m else (j, w) ∷ erase k m

  -- `get_mut(k)` followed by a write through it
  abbrev pub modify : K → (V → V) → Map K V → Map K V
  modify k f [] = []
  modify k f ((j, w) ∷ m) = if j == k then (j, f w) ∷ m else (j, w) ∷ modify k f m

  -- `entry(k).or_insert(d)` followed by a write through it
  abbrev pub update : K → V → (V → V) → Map K V → Map K V
  update k d f m = insert k (f (unwrap_or (lookup k m) d)) m

  pub lookup-insert :
      (j k : K) (v : V) (m : Map K V)
      → lookup j (insert k v m) ≡ (if k == j then some v else lookup j m)
  lookup-insert j k v [] = refl
  lookup-insert j k v ((i, w) ∷ m) =
      ground (arith, e.same_iff i k, e.same_iff i j, e.same_iff k j, lookup-insert j k v m)

  pub contains_key-insert :
      (j k : K) (v : V) (m : Map K V)
      → contains_key j (insert k v m) ≡ (if k == j then true else contains_key j m)
  contains_key-insert j k v m = ground (arith, lookup-insert j k v m)

  pub lookup-insert_self : (k : K) (v : V) (m : Map K V) → lookup k (insert k v m) ≡ some v
  lookup-insert_self k v m = ground (arith, lookup-insert k k v m, e.same_iff k k)

  pub lookup-erase_ne :
      (j k : K) (m : Map K V) → (k == j) ≡ false → lookup j (erase k m) ≡ lookup j m
  lookup-erase_ne j k [] h = refl
  lookup-erase_ne j k ((i, w) ∷ m) h =
      ground (arith, e.same_iff i k, e.same_iff i j, e.same_iff k j, lookup-erase_ne j k m h)

  pub lookup-modify :
      (j k : K) (f : V → V) (m : Map K V)
      → lookup j (modify k f m) ≡ (if k == j then Option.map f (lookup j m) else lookup j m)
  lookup-modify j k f [] = ground arith
  lookup-modify j k f ((i, w) ∷ m) =
      ground (arith, e.same_iff i k, e.same_iff i j, e.same_iff k j, lookup-modify j k f m)

  -- No key is listed twice, which is what makes the list a map.
  abbrev pub IsMap : Map K V → Type κ
  IsMap [] = Unit
  IsMap ((k, v) ∷ m) = (lookup k m ≡ none) × IsMap m

  pub insert-IsMap : (k : K) (v : V) (m : Map K V) → IsMap m → IsMap (insert k v m)
  insert-IsMap k v [] h = (refl, tt)
  insert-IsMap k v ((i, w) ∷ m) h =
      ground (arith, e.same_iff i k, e.same_iff k i, insert-IsMap k v m h.1, lookup-insert i k v m)

  pub modify-IsMap : (k : K) (f : V → V) (m : Map K V) → IsMap m → IsMap (modify k f m)
  modify-IsMap k f [] h = tt
  modify-IsMap k f ((i, w) ∷ m) h =
      ground (arith, e.same_iff i k, e.same_iff k i, modify-IsMap k f m h.1, lookup-modify i k f m)

  pub sum_by-insert :
      (f : V → ℕ) (k : K) (v : V) (m : Map K V)
      → sum_by f (insert k v m) + amount f (lookup k m) ≡ sum_by f m + f v
  sum_by-insert f k v [] = omega arith
  sum_by-insert f k v ((i, w) ∷ m) = ground (arith, sum_by-insert f k v m)

  pub sum_by-erase :
      (f : V → ℕ) (k : K) (m : Map K V) → sum_by f (erase k m) + amount f (lookup k m) ≡ sum_by f m
  sum_by-erase f k [] = omega arith
  sum_by-erase f k ((i, w) ∷ m) = ground (arith, sum_by-erase f k m)

  pub sum_by-modify :
      (f : V → ℕ) (k : K) (g : V → V) (m : Map K V)
      → sum_by f (modify k g m) + amount f (lookup k m)
        ≡ sum_by f m + amount f (Option.map g (lookup k m))
  sum_by-modify f k g [] = omega arith
  sum_by-modify f k g ((i, w) ∷ m) = ground (arith, sum_by-modify f k g m)

  pub amount-le-sum_by : (f : V → ℕ) (k : K) (m : Map K V) → amount f (lookup k m) ≤ sum_by f m
  amount-le-sum_by f k [] = omega arith
  amount-le-sum_by f k ((i, w) ∷ m) = ground (arith, amount-le-sum_by f k m)

  pub lookup-erase_self : (k : K) (m : Map K V) → IsMap m → lookup k (erase k m) ≡ none
  lookup-erase_self k [] h = refl
  lookup-erase_self k ((i, w) ∷ m) h = ground (arith, e.same_iff i k, lookup-erase_self k m h.1)

  sum-erase_others :
      (f : V → ℕ) (k : K) (ks : List K) (m : Map K V)
      → All (λ j. j ≢ k) ks
      → sum (map (λ j. amount f (lookup j (erase k m))) ks)
        ≡ sum (map (λ j. amount f (lookup j m)) ks)
  sum-erase_others f k [] m h = refl
  sum-erase_others f k (j ∷ ks) m h =
      let apart : (k == j) ≡ false = ground (arith, e.same_iff k j, h.0) in
      rw (lookup-erase_ne j k m apart, sum-erase_others f k ks m h.1)

  -- Distinct keys read at most what the map holds.
  pub sum-Distinct-le :
      (f : V → ℕ) (ks : List K) (m : Map K V)
      → Distinct ks
      → sum (map (λ k. amount f (lookup k m)) ks) ≤ sum_by f m
  sum-Distinct-le f [] m d = omega arith
  sum-Distinct-le f (k ∷ ks) m d = omega (
    arith,
    sum-erase_others f k ks m d.0,
    sum_by-erase f k m,
    sum-Distinct-le f ks (erase k m) d.1,
  )
