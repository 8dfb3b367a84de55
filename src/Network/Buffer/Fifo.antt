-- ===== src/Network/Buffer/Fifo.antt =====
-- The ring buffer of src/network/buffer.rs against a bounded queue of bytes.
use fluidic_node.Prelude.{
  ℕ, ◌-◌, ◌<◌, ◌≡◌, ◌∙◌, sym, ap, ap₂, refl, min, Bool, List, [], ◌∷◌, ◌++◌, length, take, drop,
  nat_beq, arith,
}
use fluidic_node.Network.Buffer.Bytes.{BytesMut}
use fluidic_node.Network.Buffer.{
  RingBuffer, new, is_empty, is_full, write, load, peek, consume, read_chunk,
}
use fluidic_node.Network.Buffer.Contents.{
  contents, IsRing, new-IsRing, write-IsRing, consume-IsRing, length-contents, peek_lem,
  contents-consume, contents-write, capacity-write, capacity-consume, written, consumed_read,
  read_chunk-IsRing, read_chunk_lem, capacity-read_chunk,
}

pub data Call : Type 0 where
  to_write : List ℕ → Call
  to_peek to_consume to_read : ℕ → Call
  to_measure : Call

pub data Answer : Type 0 where
  count : ℕ → Answer
  read : List ℕ → Answer
  nothing : Answer
  measured : ℕ → Bool → Bool → Answer

-- The queue: bytes that do not fit are dropped.
unfoldable pub fifo_step : ℕ → Call → List ℕ → List ℕ × Answer
fifo_step capacity (to_write xs) q =
    (q ++ take (capacity - length q) xs, count (min (length xs) (capacity - length q)))
fifo_step capacity (to_peek n) q = (q, read (take n q))
fifo_step capacity (to_consume n) q = (drop n q, nothing)
fifo_step capacity (to_read n) q = (drop n q, read (take n q))
fifo_step capacity to_measure q =
    (q, measured (length q) (nat_beq (length q) 0) (nat_beq (length q) capacity))

unfoldable pub fifo_run : ℕ → List Call → List ℕ → List ℕ × List Answer
fifo_run capacity [] q = (q, [])
fifo_run capacity (c ∷ cs) q =
    let (q', a) = fifo_step capacity c q in
    let (q'', answers) = fifo_run capacity cs q' in (q'', a ∷ answers)

module _ (bytes : BytesMut) where
  unfoldable pub step : Call → RingBuffer bytes → RingBuffer bytes × Answer
  step (to_write xs) r = let (r', n) = write bytes xs r in (r', count n)
  step (to_peek n) r = (r, read (peek bytes n r))
  step (to_consume n) r = (consume bytes n r, nothing)
  step (to_read n) r = let (r', xs) = read_chunk bytes n r in (r', read xs)
  step to_measure r = (r, measured r.len (is_empty bytes r) (is_full bytes r))

  unfoldable pub run : List Call → RingBuffer bytes → RingBuffer bytes × List Answer
  run [] r = (r, [])
  run (c ∷ cs) r = let (r', a) = step c r in let (r'', answers) = run cs r' in (r'', a ∷ answers)

  record Refines (capacity : ℕ) (r : RingBuffer bytes) (q : List ℕ) : Type 0 where
    pub ring : IsRing bytes r
    pub same_capacity : r.capacity ≡ capacity
    pub same_contents : contents bytes r ≡ q

  Refines-length :
      (capacity : ℕ) (r : RingBuffer bytes) (q : List ℕ) → Refines capacity r q → r.len ≡ length q
  Refines-length capacity r q h = sym (length-contents bytes r) ∙ ap length h.same_contents

  step-Refines :
      (capacity : ℕ) (c : Call) (r : RingBuffer bytes) (q : List ℕ)
      → Refines capacity r q
      → Refines capacity (step c r).0 (fifo_step capacity c q).0
        × ((step c r).1 ≡ (fifo_step capacity c q).1)
  unfolding step fifo_step
  step-Refines capacity (to_write xs) r q h =
      let l = Refines-length capacity r q h in
      let space : r.capacity - r.len ≡ capacity - length q = omega (arith, l, h.same_capacity) in
      (
        record {
          ring = write-IsRing bytes xs r h.ring;
          same_capacity = capacity-write bytes xs r ∙ h.same_capacity;
          same_contents =
              contents-write bytes xs r h.ring
              ∙ ap₂ (λ ys n. ys ++ take n xs) h.same_contents space;
        },
        ap count (written bytes xs r ∙ ap (min (length xs)) space),
      )
  step-Refines capacity (to_peek n) r q h =
      (h, ap read (peek_lem bytes n r ∙ ap (take n) h.same_contents))
  step-Refines capacity (to_consume n) r q h = (
    record {
      ring = consume-IsRing bytes n r h.ring;
      same_capacity = capacity-consume bytes n r ∙ h.same_capacity;
      same_contents = contents-consume bytes n r ∙ ap (drop n) h.same_contents;
    },
    refl,
  )
  step-Refines capacity (to_read n) r q h = (
    record {
      ring = read_chunk-IsRing bytes n r h.ring;
      same_capacity = capacity-read_chunk bytes n r ∙ h.same_capacity;
      same_contents = consumed_read bytes n r ∙ ap (drop n) h.same_contents;
    },
    ap read (read_chunk_lem bytes n r ∙ ap (take n) h.same_contents),
  )
  step-Refines capacity to_measure r q h = (
    h,
    ap₂ (λ n c. measured n (nat_beq n 0) (nat_beq n c)) (Refines-length capacity r q h)
        h.same_capacity,
  )

  run-Refines :
      (capacity : ℕ) (cs : List Call) (r : RingBuffer bytes) (q : List ℕ)
      → Refines capacity r q
      → Refines capacity (run cs r).0 (fifo_run capacity cs q).0
        × ((run cs r).1 ≡ (fifo_run capacity cs q).1)
  unfolding run fifo_run
  run-Refines capacity [] r q h = (h, refl)
  run-Refines capacity (c ∷ cs) r q h =
      let s = step-Refines capacity c r q h in
      let rest = run-Refines capacity cs (step c r).0 (fifo_step capacity c q).0 s.0 in
      (rest.0, ap₂ (λ a answers. a ∷ answers) s.1 rest.1)

  -- Any calls on a new ring buffer of a positive capacity answer what they answer on an empty queue
  -- of bytes that drops what exceeds the capacity, and the buffer ends holding the bytes of the queue.
  pub run_fifo :
      (capacity : ℕ) (cs : List Call)
      → 0 < capacity
      → ((run cs (new bytes capacity)).1 ≡ (fifo_run capacity cs []).1)
        × (contents bytes (run cs (new bytes capacity)).0 ≡ (fifo_run capacity cs []).0)
  unfolding load
  run_fifo capacity cs pos =
      let start : Refines capacity (new bytes capacity) [] = record {
        ring = new-IsRing bytes capacity pos;
        same_capacity = refl;
        same_contents = refl;
      } in
      let r = run-Refines capacity cs (new bytes capacity) [] start in (r.1, r.0.same_contents)
