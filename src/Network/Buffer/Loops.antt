-- ===== src/Network/Buffer/Loops.antt =====
-- The loops of `peek` and `write` of src/network/buffer.rs.
use fluidic_node.Prelude.{
  ℕ, zero, suc, ◌+◌, ◌-◌, ◌%◌, ◌≤◌, ◌<◌, ◌≡◌, ◌≢◌, ◌⊎◌, ◌∙◌, ap, ap₂, inl, inr, refl, min, List, [],
  ◌∷◌, ◌++◌, length, take, drop, arith,
}
use native.Mathlib.Nat.{mod-lt, mod-add-mod, mod-eq_of_lt, mod-eq-sub-mod}
use fluidic_node.Network.Buffer.Bytes.{BytesMut}
use fluidic_node.Network.Buffer.{store, load}

-- A position below the capacity wraps around at most once.
wrap :
    (t a c : ℕ) → t < c → a < c → ((t + a) % c ≡ t + a) ⊎ (((t + a) % c ≡ t + a - c) × (c ≤ t + a))
wrap t a c ht ha = elim (near (t + a) c) [
  | inl lo ↦ inl (mod-eq_of_lt lo)
  | inr hi ↦ inr (mod-eq-sub-mod hi ∙ mod-eq_of_lt (omega arith), hi)
]
  where
    near : (a b : ℕ) → (a < b) ⊎ (b ≤ a)
    near a b = ground arith

-- Different offsets from one position stay different.
offset_injective : (t a b c : ℕ) → t < c → a < c → b < c → a ≢ b → (t + a) % c ≢ (t + b) % c
offset_injective t a b c ht ha hb ne e = ground (arith, wrap t a c ht ha, wrap t b c ht hb)

module _ (bytes : BytesMut) where
  pub length-load : (h c : ℕ) (b : bytes.Buf) (i n : ℕ) → length (load bytes h c b i n) ≡ n
  unfolding load
  length-load h c b i zero = refl
  length-load h c b i (suc n) = ap suc (length-load h c b (suc i) n)

  -- Equal places and counts load the same bytes.
  load_same :
      (h c : ℕ) (b : bytes.Buf) (i j m n : ℕ)
      → i ≡ j
      → m ≡ n
      → load bytes h c b i m ≡ load bytes h c b j n
  load_same h c b i j m n p q = ap₂ (λ x y. load bytes h c b x y) p q

  pub take-load :
      (h c : ℕ) (b : bytes.Buf) (k i n : ℕ)
      → take k (load bytes h c b i n) ≡ load bytes h c b i (min k n)
  unfolding load
  take-load h c b zero i n = load_same h c b i i 0 (min 0 n) refl (omega arith)
  take-load h c b (suc k) i zero = load_same h c b i i 0 (min (suc k) 0) refl (omega arith)
  take-load h c b (suc k) i (suc n) =
      ap (λ xs. bytes.at ((h + i) % c) b ∷ xs) (take-load h c b k (suc i) n)
      ∙ load_same h c b i i (suc (min k n)) (min (suc k) (suc n)) refl (omega arith)

  pub drop-load :
      (h c : ℕ) (b : bytes.Buf) (k i n : ℕ)
      → drop k (load bytes h c b i n) ≡ load bytes h c b (k + i) (n - k)
  unfolding load
  drop-load h c b zero i n = load_same h c b i (0 + i) n (n - 0) (omega arith) (omega arith)
  drop-load h c b (suc k) i zero =
      load_same h c b (suc k + i) (suc k + i) 0 (0 - suc k) refl (omega arith)
  drop-load h c b (suc k) i (suc n) =
      drop-load h c b k (suc i) n
      ∙ load_same h c b (k + suc i) (suc k + i) (n - k) (suc n - suc k) (omega arith) (omega arith)

  load-append :
      (h c : ℕ) (b : bytes.Buf) (i m n : ℕ)
      → load bytes h c b i (m + n) ≡ load bytes h c b i m ++ load bytes h c b (m + i) n
  unfolding load
  load-append h c b i zero n = load_same h c b i (0 + i) (0 + n) n (omega arith) (omega arith)
  load-append h c b i (suc m) n =
      load_same h c b i i (suc m + n) (suc (m + n)) refl (omega arith)
      ∙ ap (λ xs. bytes.at ((h + i) % c) b ∷ xs)
          (load-append h c b (suc i) m n
            ∙ ap (λ xs. load bytes h c b (suc i) m ++ xs)
                (load_same h c b (m + suc i) (suc m + i) n n (omega arith) refl))

  pub load-shift :
      (h c : ℕ) (b : bytes.Buf) (k i n : ℕ)
      → load bytes ((h + k) % c) c b i n ≡ load bytes h c b (k + i) n
  unfolding load
  load-shift h c b k i zero = refl
  load-shift h c b k i (suc n) =
      ap₂ (λ x xs. bytes.at x b ∷ xs) (mod-add-mod (h + k) c i ∙ ap (λ x. x % c) (omega arith))
        (load-shift h c b k (suc i) n
          ∙ load_same h c b (k + suc i) (suc (k + i)) n n (omega arith) refl)

  -- Two buffers that agree on the loaded places load the same bytes.
  load_agree :
      (h c : ℕ) (b b' : bytes.Buf) (i n : ℕ)
      → ((j : ℕ) → i ≤ j → j < i + n → bytes.at ((h + j) % c) b ≡ bytes.at ((h + j) % c) b')
      → load bytes h c b i n ≡ load bytes h c b' i n
  unfolding load
  load_agree h c b b' i zero same = refl
  load_agree h c b b' i (suc n) same =
      ap₂ (λ x xs. x ∷ xs) (same i (omega arith) (omega arith))
        (load_agree h c b b' (suc i) n (λ j lo hi. same j (omega arith) (omega arith)))

  pub size-store :
      (t c i n : ℕ) (xs : List ℕ) (b : bytes.Buf)
      → bytes.size (store bytes t c i n xs b) ≡ bytes.size b
  unfolding store
  size-store t c i zero xs b = refl
  size-store t c i (suc n) [] b = refl
  size-store t c i (suc n) (x ∷ xs) b =
      size-store t c (suc i) n xs (bytes.set ((t + i) % c) x b) ∙ bytes.size-set ((t + i) % c) x b

  -- `store` leaves the places before its first index and after its last one.
  at-store_outside :
      (t c i n k : ℕ) (xs : List ℕ) (b : bytes.Buf)
      → t < c
      → i + n ≤ c
      → k < c
      → ((k < i) ⊎ (i + n ≤ k))
      → bytes.at ((t + k) % c) (store bytes t c i n xs b) ≡ bytes.at ((t + k) % c) b
  unfolding store
  at-store_outside t c i zero k xs b ht hn hk out = refl
  at-store_outside t c i (suc n) k [] b ht hn hk out = refl
  at-store_outside t c i (suc n) k (x ∷ xs) b ht hn hk out =
      at-store_outside t c (suc i) n k xs (bytes.set ((t + i) % c) x b) ht (omega arith) hk
        (ground arith)
      ∙ bytes.at-set_other ((t + k) % c) ((t + i) % c) x b
          (offset_injective t k i c ht hk (omega arith) (ground arith))

  -- `store` puts the data at its places, in order.
  load-store :
      (t c i n : ℕ) (xs : List ℕ) (b : bytes.Buf)
      → t < c
      → i + n ≤ c
      → n ≤ length xs
      → bytes.size b ≡ c
      → load bytes t c (store bytes t c i n xs b) i n ≡ take n xs
  unfolding load store
  load-store t c i zero xs b ht hn hx hs = refl
  load-store t c i (suc n) [] b ht hn hx hs = absurd (omega arith)
  load-store t c i (suc n) (x ∷ xs) b ht hn hx hs =
      let b' = bytes.set ((t + i) % c) x b in
      let pos : 0 < c = omega arith in
      ap₂ (λ y ys. y ∷ ys)
        (at-store_outside t c (suc i) n i xs b' ht (omega arith) (omega arith) (inl (omega arith))
          ∙ bytes.at-set_self ((t + i) % c) x b (rw hs (mod-lt (t + i) pos)))
        (load-store t c (suc i) n xs b' ht (omega arith) (omega arith)
          (bytes.size-set ((t + i) % c) x b ∙ hs))

  -- The tail is as far from the head as there are bytes: storing from it is storing after them.
  store-shift :
      (h c k i n : ℕ) (xs : List ℕ) (b : bytes.Buf)
      → store bytes ((h + k) % c) c i n xs b ≡ store bytes h c (k + i) n xs b
  unfolding store
  store-shift h c k i zero xs b = refl
  store-shift h c k i (suc n) [] b = refl
  store-shift h c k i (suc n) (x ∷ xs) b =
      let place : ((h + k) % c + i) % c ≡ (h + (k + i)) % c =
        mod-add-mod (h + k) c i ∙ ap (λ x. x % c) (omega arith) in
      let next : k + suc i ≡ suc (k + i) = omega arith in
      store-shift h c k (suc i) n xs (bytes.set (((h + k) % c + i) % c) x b)
      ∙ ap₂ (λ p j. store bytes h c j n xs (bytes.set p x b)) place next

  pub load-store_after :
      (h c l n : ℕ) (xs : List ℕ) (b0 b : bytes.Buf)
      → h < c
      → l + n ≤ c
      → n ≤ length xs
      → bytes.size b ≡ c
      → ((j : ℕ) → j < l → bytes.at ((h + j) % c) b ≡ bytes.at ((h + j) % c) b0)
      → load bytes h c (store bytes ((h + l) % c) c 0 n xs b) 0 (l + n)
        ≡ load bytes h c b0 0 l ++ take n xs
  load-store_after h c l n xs b0 b hh hl hx hs same =
      let b' = store bytes h c (l + 0) n xs b in
      let old : load bytes h c b' 0 l ≡ load bytes h c b0 0 l = load_agree h c b' b0 0 l (λ j lo hi.
        at-store_outside h c (l + 0) n j xs b hh (omega arith) (omega arith) (inl (omega arith))
        ∙ same j (omega arith)) in
      let new : load bytes h c b' (l + 0) n ≡ take n xs =
        load-store h c (l + 0) n xs b hh (omega arith) hx hs in
      ap (λ y. load bytes h c y 0 (l + n)) (store-shift h c l 0 n xs b)
      ∙ load-append h c b' 0 l n
      ∙ ap₂ (λ ys zs. ys ++ zs) old new
