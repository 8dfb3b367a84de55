-- ===== src/Network/Node.antt =====
-- The framing of signals on the ingress buffer, src/network/node.rs. The crate bincode is a
-- parameter; channels, sockets and the peers' map are not modelled.
pub mod Framing
pub mod Blocked
mod Tests
use fluidic_node.Prelude.{
  ℕ, ◌+◌, ◌*◌, ◌%◌, ◌^◌, ◌≡◌, List, [], ◌∷◌, ◌++◌, Option, none, some, if◌then◌else◌, ltb, length,
  Result, ok, err,
}
use fluidic_node.Prelude.Bytes.{Bytes, to_le_bytes, from_le_bytes}
use fluidic_node.Network.Buffer.Bytes.{BytesMut}
use fluidic_node.Network.Buffer.{RingBuffer, write, peek, consume, read_chunk}

abbrev pub max_shift_size : ℕ
max_shift_size = 8 * 1024

-- bincode's `serialize` and `deserialize` at the type of signals
pub record Bincode : Type 1 where
  pub Signal : Type 0
  pub serialize : Signal → Option Bytes
  pub deserialize : Bytes → Option Signal

pub data FrameError : Type 0 where
  unserializable too_large undecodable : FrameError
  oversized : ℕ → FrameError

module _ (bincode : Bincode) where
  -- the payload that `broadcast` sends to each peer
  unfoldable pub broadcast_payload : bincode.Signal → Result Bytes FrameError
  broadcast_payload shift = elim (bincode.serialize shift) [
    | none ↦ err unserializable
    | some encoded ↦ if ltb max_shift_size (length encoded) then err too_large else ok encoded
  ]

  -- `body.len() as u32` wraps.
  unfoldable pub encode_packet : bincode.Signal → Result Bytes FrameError
  encode_packet shift = elim (bincode.serialize shift) [
    | none ↦ err unserializable
    | some body ↦ ok (to_le_bytes 4 (length body % 2 ^ 32) ++ body)
  ]

module _ (bytes : BytesMut) where
  -- The body of `run` for one packet; the count of written bytes is dropped.
  abbrev pub receive : Bytes → RingBuffer bytes → RingBuffer bytes
  receive payload r = (write bytes payload r).0

  -- `next_shift` from the length that the header gives
  unfoldable pub decode_frame :
      (bincode : Bincode)
      → ℕ
      → RingBuffer bytes
      → RingBuffer bytes × Result (Option bincode.Signal) FrameError
  decode_frame bincode len r =
      if ltb max_shift_size len
      then (r, err (oversized len))
      else if ltb r.len (4 + len)
      then (r, ok none)
      else let (r', payload) = read_chunk bytes len (consume bytes 4 r) in
        elim (bincode.deserialize payload) [
          | none ↦ (r', err undecodable)
          | some shift ↦ (r', ok (some shift))
        ]

  unfoldable pub next_shift :
      (bincode : Bincode)
      → RingBuffer bytes
      → RingBuffer bytes × Result (Option bincode.Signal) FrameError
  next_shift bincode r =
      if ltb r.len 4 then (r, ok none) else decode_frame bincode (from_le_bytes (peek bytes 4 r)) r
