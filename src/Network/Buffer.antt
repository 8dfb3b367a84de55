-- ===== src/Network/Buffer.antt =====
-- `RingBuffer`, src/network/buffer.rs, over any `BytesMut`.
pub mod Bytes
pub mod Loops
pub mod Contents
pub mod Fifo
pub mod Vector
mod Tests
use fluidic_node.Prelude.{ℕ, zero, suc, ◌+◌, ◌-◌, ◌%◌, min, Bool, List, [], ◌∷◌, length, nat_beq}
use fluidic_node.Network.Buffer.Bytes.{BytesMut}

module _ (bytes : BytesMut) where
  pub record RingBuffer : Type 0 where
    pub buf : bytes.Buf
    pub capacity : ℕ
    pub head : ℕ
    pub tail : ℕ
    pub len : ℕ

  abbrev pub new : ℕ → RingBuffer
  new capacity = record {
    buf = bytes.with_capacity capacity;
    capacity = capacity;
    head = 0;
    tail = 0;
    len = 0;
  }

  abbrev pub is_empty : RingBuffer → Bool
  is_empty r = nat_beq r.len 0

  abbrev pub is_full : RingBuffer → Bool
  is_full r = nat_beq r.len r.capacity

  -- The `for` of `write` from the index `i` on, over `data.iter().take(to_write)`.
  unfoldable pub store : ℕ → ℕ → ℕ → ℕ → List ℕ → bytes.Buf → bytes.Buf
  store tail capacity i zero input buf = buf
  store tail capacity i (suc to_write) [] buf = buf
  store tail capacity i (suc to_write) (byte ∷ input) buf =
      store tail capacity (suc i) to_write input (bytes.set ((tail + i) % capacity) byte buf)

  -- A remainder by a capacity of 0 panics in the code.
  unfoldable pub write : List ℕ → RingBuffer → RingBuffer × ℕ
  write input r =
      let to_write : ℕ = min (length input) (r.capacity - r.len) in
      (
        record r {
          buf = store r.tail r.capacity 0 to_write input (bytes.resize r.capacity 0 r.buf);
          tail = (r.tail + to_write) % r.capacity;
          len = r.len + to_write;
        },
        to_write,
      )

  -- The `for` of `peek` over `n` indices from `i` on.
  unfoldable pub load : ℕ → ℕ → bytes.Buf → ℕ → ℕ → List ℕ
  load head capacity buf i zero = []
  load head capacity buf i (suc n) =
      bytes.at ((head + i) % capacity) buf ∷ load head capacity buf (suc i) n

  unfoldable pub peek : ℕ → RingBuffer → List ℕ
  peek most r = load r.head r.capacity r.buf 0 (min most r.len)

  unfoldable pub consume : ℕ → RingBuffer → RingBuffer
  consume n r =
      let consumed : ℕ = min n r.len in
      record r { head = (r.head + consumed) % r.capacity; len = r.len - consumed }

  unfoldable pub read_chunk : ℕ → RingBuffer → RingBuffer × List ℕ
  read_chunk most r = let input = peek most r in (consume (length input) r, input)
