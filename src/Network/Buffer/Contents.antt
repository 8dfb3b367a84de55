-- ===== src/Network/Buffer/Contents.antt =====
-- What src/network/buffer.rs keeps in its buffer: the bytes from the head on, and how each operation
-- changes them.
use fluidic_node.Prelude.{
  ℕ, zero, suc, ◌+◌, ◌-◌, ◌%◌, ◌≤◌, ◌<◌, ◌≡◌, ◌⊎◌, ◌∙◌, sym, ap, inl, inr, refl, min, List, [], ◌∷◌,
  ◌++◌, length, take, drop, arith,
}
use native.Mathlib.Nat.{mod-lt, mod-add-mod, mod-eq_of_lt}
use fluidic_node.Network.Buffer.Bytes.{BytesMut}
use fluidic_node.Network.Buffer.{RingBuffer, new, store, write, load, peek, consume, read_chunk}
use fluidic_node.Network.Buffer.Loops.{
  length-load, take-load, drop-load, load-shift, size-store, load-store_after,
}

drop-length-take : (n : ℕ) (xs : List ℕ) → drop (length (take n xs)) xs ≡ drop n xs
drop-length-take zero xs = refl
drop-length-take (suc n) [] = refl
drop-length-take (suc n) (x ∷ xs) = drop-length-take n xs

module _ (bytes : BytesMut) where
  -- the bytes from the head on
  abbrev pub contents : RingBuffer bytes → List ℕ
  contents r = load bytes r.head r.capacity r.buf 0 r.len

  -- the counters agree, and the buffer has its full size once something is in it
  pub record IsRing (r : RingBuffer bytes) : Type 0 where
    pub len_le : r.len ≤ r.capacity
    pub head_lt : r.head < r.capacity
    pub tail_eq : r.tail ≡ (r.head + r.len) % r.capacity
    pub full_size : (r.len ≡ 0) ⊎ (bytes.size r.buf ≡ r.capacity)

  same_take : (xs : List ℕ) (m n : ℕ) → m ≡ n → take m xs ≡ take n xs
  same_take xs m n e = ap (λ k. take k xs) e

  take-min : (xs : List ℕ) (k : ℕ) → take (min (length xs) k) xs ≡ take k xs
  take-min [] zero = same_take [] (min 0 0) 0 (omega arith)
  take-min [] (suc k) = same_take [] (min 0 (suc k)) 0 (omega arith)
  take-min (x ∷ xs) zero = same_take (x ∷ xs) (min (suc (length xs)) 0) 0 (omega arith)
  take-min (x ∷ xs) (suc k) =
      same_take (x ∷ xs) (min (suc (length xs)) (suc k)) (suc (min (length xs) k)) (omega arith)
      ∙ ap (λ ys. x ∷ ys) (take-min xs k)

  pub new-IsRing : (c : ℕ) → 0 < c → IsRing (new bytes c)
  new-IsRing c pos = record {
    len_le = omega arith;
    head_lt = pos;
    tail_eq = sym (mod-eq_of_lt (omega arith));
    full_size = inl refl;
  }

  pub write-IsRing : (xs : List ℕ) (r : RingBuffer bytes) → IsRing r → IsRing (write bytes xs r).0
  unfolding write
  write-IsRing xs r ok =
      let w : ℕ = min (length xs) (r.capacity - r.len) in
      let b = bytes.resize r.capacity 0 r.buf in
      record {
        len_le = omega (arith, ok.len_le);
        head_lt = ok.head_lt;
        tail_eq =
            ap (λ t. (t + w) % r.capacity) ok.tail_eq
            ∙ mod-add-mod (r.head + r.len) r.capacity w
            ∙ ap (λ t. t % r.capacity) (omega arith);
        full_size =
            inr
              (size-store bytes r.tail r.capacity 0 w xs b ∙ bytes.size-resize r.capacity 0 r.buf);
      }

  pub consume-IsRing : (n : ℕ) (r : RingBuffer bytes) → IsRing r → IsRing (consume bytes n r)
  unfolding consume
  consume-IsRing n r ok =
      let k : ℕ = min n r.len in
      record {
        len_le = omega (arith, ok.len_le);
        head_lt = mod-lt (r.head + k) (omega (arith, ok.head_lt));
        tail_eq =
            ok.tail_eq
            ∙ ap (λ t. t % r.capacity) (omega arith)
            ∙ sym (mod-add-mod (r.head + k) r.capacity (r.len - k));
        full_size = emptied ok.full_size;
      }
    where
      emptied :
          ((r.len ≡ 0) ⊎ (bytes.size r.buf ≡ r.capacity))
          → ((r.len - min n r.len ≡ 0) ⊎ (bytes.size r.buf ≡ r.capacity))
      emptied (inl e) = inl (omega arith)
      emptied (inr e) = inr e

  pub length-contents : (r : RingBuffer bytes) → length (contents r) ≡ r.len
  length-contents r = length-load bytes r.head r.capacity r.buf 0 r.len

  pub peek_lem : (n : ℕ) (r : RingBuffer bytes) → peek bytes n r ≡ take n (contents r)
  unfolding peek
  peek_lem n r = sym (take-load bytes r.head r.capacity r.buf n 0 r.len)

  same_drop : (xs : List ℕ) (m n : ℕ) → m ≡ n → drop m xs ≡ drop n xs
  same_drop xs m n e = ap (λ k. drop k xs) e

  drop-min : (xs : List ℕ) (k : ℕ) → drop (min k (length xs)) xs ≡ drop k xs
  drop-min [] zero = same_drop [] (min 0 0) 0 (omega arith)
  drop-min [] (suc k) = same_drop [] (min (suc k) 0) 0 (omega arith)
  drop-min (x ∷ xs) zero = same_drop (x ∷ xs) (min 0 (suc (length xs))) 0 (omega arith)
  drop-min (x ∷ xs) (suc k) =
      same_drop (x ∷ xs) (min (suc k) (suc (length xs))) (suc (min k (length xs))) (omega arith)
      ∙ drop-min xs k

  pub contents-consume :
      (n : ℕ) (r : RingBuffer bytes) → contents (consume bytes n r) ≡ drop n (contents r)
  unfolding consume
  contents-consume n r =
      let k : ℕ = min n r.len in
      load-shift bytes r.head r.capacity r.buf k 0 (r.len - k)
      ∙ sym (drop-load bytes r.head r.capacity r.buf k 0 r.len)
      ∙ same_drop (contents r) k (min n (length (contents r))) (omega (arith, length-contents r))
      ∙ drop-min (contents r) n

  pub contents-write :
      (xs : List ℕ) (r : RingBuffer bytes)
      → IsRing r
      → contents (write bytes xs r).0 ≡ contents r ++ take (r.capacity - r.len) xs
  unfolding write
  contents-write xs r ok =
      let w : ℕ = min (length xs) (r.capacity - r.len) in
      let b = bytes.resize r.capacity 0 r.buf in
      let pos : 0 < r.capacity = omega (arith, ok.head_lt) in
      ap (λ t. load bytes r.head r.capacity (store bytes t r.capacity 0 w xs b) 0 (r.len + w))
        ok.tail_eq
      ∙ load-store_after bytes r.head r.capacity r.len w xs r.buf b ok.head_lt
          (omega (arith, ok.len_le)) (omega arith) (bytes.size-resize r.capacity 0 r.buf)
          (λ j hi. kept j hi pos ok.full_size)
      ∙ ap (λ ys. contents r ++ ys) (take-min xs (r.capacity - r.len))
    where
      kept :
          (j : ℕ)
          → j < r.len
          → 0 < r.capacity
          → ((r.len ≡ 0) ⊎ (bytes.size r.buf ≡ r.capacity))
          → bytes.at ((r.head + j) % r.capacity) (bytes.resize r.capacity 0 r.buf)
            ≡ bytes.at ((r.head + j) % r.capacity) r.buf
      kept j hi pos (inl e) = absurd (omega arith)
      kept j hi pos (inr e) =
          let lt = mod-lt (r.head + j) pos in
          bytes.at-resize ((r.head + j) % r.capacity) r.capacity 0 r.buf (rw e lt) lt

  pub capacity-write :
      (xs : List ℕ) (r : RingBuffer bytes) → (write bytes xs r).0.capacity ≡ r.capacity
  unfolding write
  capacity-write xs r = refl

  pub capacity-consume : (n : ℕ) (r : RingBuffer bytes) → (consume bytes n r).capacity ≡ r.capacity
  unfolding consume
  capacity-consume n r = refl

  pub written :
      (xs : List ℕ) (r : RingBuffer bytes)
      → (write bytes xs r).1 ≡ min (length xs) (r.capacity - r.len)
  unfolding write
  written xs r = refl

  pub read_chunk-IsRing :
      (n : ℕ) (r : RingBuffer bytes) → IsRing r → IsRing (read_chunk bytes n r).0
  unfolding read_chunk
  read_chunk-IsRing n r ok = consume-IsRing (length (peek bytes n r)) r ok

  pub capacity-read_chunk :
      (n : ℕ) (r : RingBuffer bytes) → (read_chunk bytes n r).0.capacity ≡ r.capacity
  unfolding read_chunk
  capacity-read_chunk n r = capacity-consume (length (peek bytes n r)) r

  pub read_chunk_lem :
      (n : ℕ) (r : RingBuffer bytes) → (read_chunk bytes n r).1 ≡ take n (contents r)
  unfolding read_chunk
  read_chunk_lem n r = peek_lem n r

  pub consumed_read :
      (n : ℕ) (r : RingBuffer bytes) → contents (read_chunk bytes n r).0 ≡ drop n (contents r)
  unfolding read_chunk
  consumed_read n r =
      contents-consume (length (peek bytes n r)) r
      ∙ ap (λ xs. drop (length xs) (contents r)) (peek_lem n r)
      ∙ drop-length-take n (contents r)
