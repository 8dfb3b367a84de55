-- ===== src/Network/Node/Tests.antt =====
-- Runs and instances for src/network/node.rs, with signals that are byte strings.
use fluidic_node.Prelude.{◌≡◌, refl, List, [], ◌∷◌, some, map, ok, err, arith}
use fluidic_node.Prelude.Bytes.{Bytes, to_le_bytes, from_le_bytes}
use fluidic_node.Network.Buffer.{RingBuffer, new, store, write, load, peek}
use fluidic_node.Network.Buffer.Contents.{contents, new-IsRing, write-IsRing}
use fluidic_node.Network.Buffer.Vector.{vector}
use fluidic_node.Network.Node.{
  Bincode, oversized, encode_packet, broadcast_payload, next_shift, decode_frame, receive,
}
use fluidic_node.Network.Node.Framing.{next_shifts, receive_all, next_shifts-receive_all}
use fluidic_node.Network.Node.Blocked.{next_shift_blocked}

abbrev plain : Bincode
plain = record { Signal = Bytes; serialize = λ s. some s; deserialize = λ b. some b }

abbrev shifts : List Bytes
shifts = (7 ∷ 8 ∷ []) ∷ (9 ∷ []) ∷ []

abbrev packets : List Bytes
packets = (2 ∷ 0 ∷ 0 ∷ 0 ∷ 7 ∷ 8 ∷ []) ∷ (1 ∷ 0 ∷ 0 ∷ 0 ∷ 9 ∷ []) ∷ []

next_shifts-receive_all_example :
    let r = receive_all vector packets (new vector 16) in
    ((next_shifts vector plain 2 r).1 ≡ map (λ s. ok (some s)) shifts)
    × (contents vector (next_shifts vector plain 2 r).0 ≡ [])
unfolding encode_packet to_le_bytes
next_shifts-receive_all_example =
    next_shifts-receive_all vector plain 16 shifts packets (λ s body e. ground arith)
      (refl, omega arith, (refl, omega arith, tt)) (omega arith) (omega arith)

-- An unframed payload whose first bytes are 1, 0, 1, 0 is read as a length of 65537.
abbrev stuck : RingBuffer vector
stuck = receive vector (1 ∷ 0 ∷ 1 ∷ 0 ∷ 5 ∷ []) (new vector 16)

stuck-next_shift : (next_shift vector plain stuck).1 ≡ err (oversized 65537)
unfolding next_shift decode_frame peek load from_le_bytes write store
stuck-next_shift = refl

next_shift_blocked_example :
    ((next_shift vector plain stuck).0 ≡ stuck)
    × ((next_shift vector plain (receive_all vector packets (next_shift vector plain stuck).0)).1
        ≡ err (oversized 65537))
next_shift_blocked_example =
    next_shift_blocked vector plain 65537 stuck packets
      (write-IsRing vector (1 ∷ 0 ∷ 1 ∷ 0 ∷ 5 ∷ []) (new vector 16)
        (new-IsRing vector 16 (omega arith)))
      stuck-next_shift

-- `broadcast` sends the body without the length that `next_shift` reads.
broadcast_unframed : broadcast_payload plain (7 ∷ 8 ∷ []) ≡ ok (7 ∷ 8 ∷ [])
unfolding broadcast_payload
broadcast_unframed = refl
