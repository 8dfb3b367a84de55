-- ===== src/Network/Node/Framing.antt =====
-- What the framing of src/network/node.rs delivers, and what blocks it.
use fluidic_node.Prelude.{
  ℕ, zero, suc, ◌+◌, ◌-◌, ◌%◌, ◌^◌, ◌≤◌, ◌<◌, ◌≡◌, ◌∙◌, sym, ap, ap₂, refl, false, List, [], ◌∷◌,
  ◌++◌, Option, some, ltb, length, length-append, take, drop, map, Result, ok, arith, Option-cases,
  inl, inr,
}
use fluidic_node.Prelude.Bytes.{
  Bytes, to_le_bytes, from_le_bytes, length-to_le_bytes, from_le_bytes-to_le_bytes,
}
use fluidic_node.Prelude.Slices.{take_front, drop_front, take_short, append_assoc, append_empty}
use fluidic_node.Network.Buffer.Bytes.{BytesMut}
use fluidic_node.Network.Buffer.{RingBuffer, new, load, peek, consume, read_chunk}
use fluidic_node.Network.Buffer.Contents.{
  contents, IsRing, new-IsRing, write-IsRing, consume-IsRing, length-contents, peek_lem,
  contents-consume, contents-write, capacity-write, consumed_read, read_chunk-IsRing,
  read_chunk_lem,
}
use fluidic_node.Network.Node.{
  Bincode, FrameError, max_shift_size, encode_packet, receive, next_shift, decode_frame,
}

abbrev pub concat : List Bytes → Bytes
concat [] = []
concat (p ∷ ps) = p ++ concat ps

module _ (bytes : BytesMut) where
  -- packets received one after the other
  abbrev pub receive_all : List Bytes → RingBuffer bytes → RingBuffer bytes
  receive_all [] r = r
  receive_all (p ∷ ps) r = receive_all ps (receive bytes p r)

  receive_all-contents :
      (ps : List Bytes) (r : RingBuffer bytes)
      → IsRing bytes r
      → length (contents bytes r) + length (concat ps) ≤ r.capacity
      → IsRing bytes (receive_all ps r)
        × (contents bytes (receive_all ps r) ≡ contents bytes r ++ concat ps)
  receive_all-contents [] r ring fits = (ring, sym (append_empty (contents bytes r)))
  receive_all-contents (p ∷ ps) r ring fits =
      let l = length-contents bytes r in
      let whole : length p + length (concat ps) ≡ length (p ++ concat ps) =
        sym (length-append p (concat ps)) in
      let one : contents bytes (receive bytes p r) ≡ contents bytes r ++ p =
        contents-write bytes p r ring
        ∙ ap (λ xs. contents bytes r ++ xs)
            (take_short (r.capacity - r.len) p (omega (arith, l, whole))) in
      let size : length (contents bytes (receive bytes p r))
          ≡ length (contents bytes r) + length p =
        ap length one ∙ length-append (contents bytes r) p in
      let rest =
        receive_all-contents ps (receive bytes p r) (write-IsRing bytes p r ring)
          (omega (arith, size, whole, capacity-write bytes p r)) in
      (
        rest.0,
        rest.1 ∙ ap (λ xs. xs ++ concat ps) one ∙ append_assoc (contents bytes r) p (concat ps),
      )

module _ (bytes : BytesMut) (bincode : Bincode) where
  -- The packets are those of the shifts, none beyond the limit.
  abbrev pub Sent : List bincode.Signal → List Bytes → Type 0
  Sent [] [] = Unit
  Sent [] (p ∷ ps) = ⊥
  Sent (s ∷ ss) [] = ⊥
  Sent (s ∷ ss) (p ∷ ps) =
      (encode_packet bincode s ≡ ok p) × (length p ≤ 4 + max_shift_size) × Sent ss ps

  -- `next_shift` called a number of times
  abbrev pub next_shifts :
      ℕ → RingBuffer bytes → RingBuffer bytes × List (Result (Option bincode.Signal) FrameError)
  next_shifts zero r = (r, [])
  next_shifts (suc n) r =
      let (r', x) = next_shift bytes bincode r in let (r'', xs) = next_shifts n r' in (r'', x ∷ xs)

  next_shift_lem :
      (r : RingBuffer bytes)
      → 4 ≤ r.len
      → next_shift bytes bincode r ≡ decode_frame bytes bincode (from_le_bytes (peek bytes 4 r)) r
  unfolding next_shift
  next_shift_lem r h = let long : ltb r.len 4 ≡ false = ground arith in rw long refl

  decode_frame_lem :
      (body : Bytes) (s : bincode.Signal) (r : RingBuffer bytes)
      → length body ≤ max_shift_size
      → 4 + length body ≤ r.len
      → (read_chunk bytes (length body) (consume bytes 4 r)).1 ≡ body
      → bincode.deserialize body ≡ some s
      → decode_frame bytes bincode (length body) r
        ≡ ((read_chunk bytes (length body) (consume bytes 4 r)).0, ok (some s))
  unfolding decode_frame
  decode_frame_lem body s r small there got decodes =
      let fine : ltb max_shift_size (length body) ≡ false = ground arith in
      let whole : ltb r.len (4 + length body) ≡ false = ground arith in
      rw (fine, whole, got, decodes) refl

  next_shift-frame :
      (body rest : Bytes) (s : bincode.Signal) (r : RingBuffer bytes)
      → IsRing bytes r
      → length body ≤ max_shift_size
      → contents bytes r ≡ (to_le_bytes 4 (length body % 2 ^ 32) ++ body) ++ rest
      → bincode.deserialize body ≡ some s
      → IsRing bytes (next_shift bytes bincode r).0
        × (contents bytes (next_shift bytes bincode r).0 ≡ rest)
        × ((next_shift bytes bincode r).1 ≡ ok (some s))
  next_shift-frame body rest s r ring small full decodes =
      let n : ℕ = length body % 2 ^ 32 in
      let exact : n ≡ length body = omega arith in
      let header : Bytes = to_le_bytes 4 n in
      let c = contents bytes r in
      let split : c ≡ header ++ (body ++ rest) = full ∙ append_assoc header body rest in
      let h4 : 4 ≡ length header = sym (length-to_le_bytes 4 n) in
      let size : r.len ≡ 4 + (length body + length rest) =
        sym (length-contents bytes r)
        ∙ ap length split
        ∙ length-append header (body ++ rest)
        ∙ omega (arith, h4, length-append body rest) in
      let peeked : peek bytes 4 r ≡ header =
        peek_lem bytes 4 r ∙ ap (take 4) split ∙ take_front header (body ++ rest) 4 h4 in
      let len : from_le_bytes (peek bytes 4 r) ≡ length body =
        ap from_le_bytes peeked ∙ from_le_bytes-to_le_bytes 4 n (omega arith) ∙ exact in
      let r4 = consume bytes 4 r in
      let tail : contents bytes r4 ≡ body ++ rest =
        contents-consume bytes 4 r ∙ ap (drop 4) split ∙ drop_front header (body ++ rest) 4 h4 in
      let got : (read_chunk bytes (length body) r4).1 ≡ body =
        read_chunk_lem bytes (length body) r4
        ∙ ap (take (length body)) tail
        ∙ take_front body rest (length body) refl in
      let left : contents bytes (read_chunk bytes (length body) r4).0 ≡ rest =
        consumed_read bytes (length body) r4
        ∙ ap (drop (length body)) tail
        ∙ drop_front body rest (length body) refl in
      let decoded : decode_frame bytes bincode (length body) r
          ≡ ((read_chunk bytes (length body) r4).0, ok (some s)) =
        decode_frame_lem body s r small (omega (arith, size)) got decodes in
      let whole : next_shift bytes bincode r
          ≡ ((read_chunk bytes (length body) r4).0, ok (some s)) =
        next_shift_lem r (omega (arith, size))
        ∙ ap (λ m. decode_frame bytes bincode m r) len
        ∙ decoded in
      rw whole
        (read_chunk-IsRing bytes (length body) r4 (consume-IsRing bytes 4 r ring), left, refl)

  encoded :
      (s : bincode.Signal) (p : Bytes)
      → encode_packet bincode s ≡ ok p
      → length p ≤ 4 + max_shift_size
      → (body : Bytes) × (bincode.serialize s ≡ some body)
        × (p ≡ to_le_bytes 4 (length body % 2 ^ 32) ++ body)
        × (length body ≤ max_shift_size)
  unfolding encode_packet
  encoded s p e small = elim (Option-cases (bincode.serialize s)) [
    | inl gone ↦ absurd (ground arith)
    | inr (body, there) ↦
        let same : p ≡ to_le_bytes 4 (length body % 2 ^ 32) ++ body = ground arith in
        (
          body,
          there,
          same,
          omega (
            arith,
            ap length same,
            length-append (to_le_bytes 4 (length body % 2 ^ 32)) body,
            length-to_le_bytes 4 (length body % 2 ^ 32),
          ),
        )
  ]

  delivered :
      (ss : List bincode.Signal) (ps : List Bytes) (r : RingBuffer bytes)
      → ((s : bincode.Signal) (body : Bytes)
          → bincode.serialize s ≡ some body
          → bincode.deserialize body ≡ some s)
      → Sent ss ps
      → IsRing bytes r
      → contents bytes r ≡ concat ps
      → ((next_shifts (length ss) r).1 ≡ map (λ s. ok (some s)) ss)
        × (contents bytes (next_shifts (length ss) r).0 ≡ [])
  delivered [] [] r law sent ring c = (refl, c)
  delivered [] (p ∷ ps) r law sent ring c = absurd sent
  delivered (s ∷ ss) [] r law sent ring c = absurd sent
  delivered (s ∷ ss) (p ∷ ps) r law sent ring c =
      let (body, there, same, small) = encoded s p sent.0 sent.1 in
      let one =
        next_shift-frame body (concat ps) s r ring small (c ∙ ap (λ x. x ++ concat ps) same)
          (law s body there) in
      let rest = delivered ss ps (next_shift bytes bincode r).0 law sent.2 one.0 one.1 in
      (ap₂ (λ x xs. x ∷ xs) one.2 rest.0, rest.1)

  -- Shifts sent as packets of `encode_packet`, none larger than the limit and all together within the
  -- capacity of a new buffer, come out of `next_shift` one by one in the order sent, and leave the
  -- buffer empty, when bincode reads back what it writes.
  pub next_shifts-receive_all :
      (capacity : ℕ) (ss : List bincode.Signal) (ps : List Bytes)
      → ((s : bincode.Signal) (body : Bytes)
          → bincode.serialize s ≡ some body
          → bincode.deserialize body ≡ some s)
      → Sent ss ps
      → 0 < capacity
      → length (concat ps) ≤ capacity
      → let r = receive_all bytes ps (new bytes capacity) in
        ((next_shifts (length ss) r).1 ≡ map (λ s. ok (some s)) ss)
        × (contents bytes (next_shifts (length ss) r).0 ≡ [])
  unfolding load
  next_shifts-receive_all capacity ss ps law sent pos fits =
      let filled =
        receive_all-contents bytes ps (new bytes capacity) (new-IsRing bytes capacity pos)
          (omega (arith, fits)) in
      delivered ss ps (receive_all bytes ps (new bytes capacity)) law sent filled.0 filled.1
