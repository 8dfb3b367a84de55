-- ===== src/Network/Node/Blocked.antt =====
-- What an oversized length does to the ingress of src/network/node.rs.
use fluidic_node.Prelude.{
  ℕ, ◌+◌, ◌-◌, ◌≤◌, ◌<◌, ◌≡◌, ◌∙◌, sym, ap, refl, true, false, List, [], ◌∷◌, ◌++◌, ltb, length,
  length-append, take, err, arith, Bool-cases, Option-cases, inl, inr,
}
use fluidic_node.Prelude.Bytes.{Bytes, from_le_bytes}
use fluidic_node.Prelude.Slices.{take-append}
use fluidic_node.Network.Buffer.Bytes.{BytesMut}
use fluidic_node.Network.Buffer.{RingBuffer, peek, consume, read_chunk}
use fluidic_node.Network.Buffer.Contents.{
  contents, IsRing, write-IsRing, length-contents, peek_lem, contents-write,
}
use fluidic_node.Network.Node.{
  Bincode, oversized, max_shift_size, receive, next_shift, decode_frame,
}
use fluidic_node.Network.Node.Framing.{receive_all}

module _ (bytes : BytesMut) (bincode : Bincode) where
  -- the header read is beyond the limit
  record IsOversized (n : ℕ) (r : RingBuffer bytes) : Type 0 where
    long : 4 ≤ length (contents bytes r)
    header : from_le_bytes (take 4 (contents bytes r)) ≡ n
    beyond : max_shift_size < n

  decode-oversized :
      (len n : ℕ) (r : RingBuffer bytes)
      → (decode_frame bytes bincode len r).1 ≡ err (oversized n)
      → (len ≡ n) × (max_shift_size < len)
  unfolding decode_frame
  decode-oversized len n r e =
      let body : Bytes = (read_chunk bytes len (consume bytes 4 r)).1 in
      elim (Bool-cases (ltb max_shift_size len)) [
        | inl big ↦ ground arith
        | inr fine ↦ elim (Bool-cases (ltb r.len (4 + len))) [
          | inl short ↦ absurd (ground arith)
          | inr whole ↦ elim (Option-cases (bincode.deserialize body)) [
            | inl garbled ↦ absurd (ground arith)
            | inr (s, decoded) ↦ absurd (ground arith)
          ]
        ]
      ]

  next_shift-oversized :
      (n : ℕ) (r : RingBuffer bytes)
      → (next_shift bytes bincode r).1 ≡ err (oversized n)
      → IsOversized n r
  unfolding next_shift
  next_shift-oversized n r e = elim (Bool-cases (ltb r.len 4)) [
    | inl short ↦ absurd (ground arith)
    | inr whole ↦
        let len : ℕ = from_le_bytes (peek bytes 4 r) in
        let d = decode-oversized len n r (rw (whole, next_shift) at e) in
        record {
          long = ground (arith, length-contents bytes r);
          header = ap from_le_bytes (sym (peek_lem bytes 4 r)) ∙ d.0;
          beyond = omega (arith, d.0, d.1);
        }
  ]

  IsOversized-next_shift :
      (n : ℕ) (r : RingBuffer bytes)
      → IsOversized n r
      → next_shift bytes bincode r ≡ (r, err (oversized n))
  unfolding next_shift decode_frame
  IsOversized-next_shift n r h =
      let long : ltb r.len 4 ≡ false = ground (arith, h.long, length-contents bytes r) in
      let len : from_le_bytes (peek bytes 4 r) ≡ n =
        ap from_le_bytes (peek_lem bytes 4 r) ∙ h.header in
      let big : ltb max_shift_size n ≡ true = ground (arith, h.beyond) in rw (long, len, big) refl

  receive-IsOversized :
      (n : ℕ) (p : Bytes) (r : RingBuffer bytes)
      → IsRing bytes r
      → IsOversized n r
      → IsOversized n (receive bytes p r)
  receive-IsOversized n p r ring h =
      let c = contents bytes r in
      let more : Bytes = take (r.capacity - r.len) p in
      let grown : contents bytes (receive bytes p r) ≡ c ++ more = contents-write bytes p r ring in
      record {
        long = omega (arith, ap length grown, length-append c more, h.long);
        header = ap from_le_bytes (ap (take 4) grown ∙ take-append 4 c more h.long) ∙ h.header;
        beyond = h.beyond;
      }

  receive_all-IsOversized :
      (n : ℕ) (ps : List Bytes) (r : RingBuffer bytes)
      → IsRing bytes r
      → IsOversized n r
      → IsOversized n (receive_all bytes ps r)
  receive_all-IsOversized n [] r ring h = h
  receive_all-IsOversized n (p ∷ ps) r ring h =
      receive_all-IsOversized n ps (receive bytes p r) (write-IsRing bytes p r ring)
        (receive-IsOversized n p r ring h)

  -- Once `next_shift` reports an oversized length, it has left the buffer as it was, and whatever
  -- packets are received afterwards, it reports that length again. The buffer is well formed.
  pub next_shift_blocked :
      (n : ℕ) (r : RingBuffer bytes) (ps : List Bytes)
      → IsRing bytes r
      → (next_shift bytes bincode r).1 ≡ err (oversized n)
      → ((next_shift bytes bincode r).0 ≡ r)
        × ((next_shift bytes bincode (receive_all bytes ps (next_shift bytes bincode r).0)).1
            ≡ err (oversized n))
  next_shift_blocked n r ps ring e =
      let big = next_shift-oversized n r e in
      let kept : (next_shift bytes bincode r).0 ≡ r =
        ap (λ x. x.0) (IsOversized-next_shift n r big) in
      (
        kept,
        ap (λ x. (next_shift bytes bincode (receive_all bytes ps x)).1) kept
            ∙ ap (λ x. x.1)
                (IsOversized-next_shift n (receive_all bytes ps r)
                  (receive_all-IsOversized n ps r ring big)),
      )
