-- ===== src/Crypto/Shift/Encoding.antt =====
-- How far the signing bytes of a stateful shift, src/crypto/phase_shift.rs, determine it.
use fluidic_node.Prelude.{
  ℕ, ◌+◌, ◌*◌, ◌<◌, ◌≡◌, ◌++◌, List, [], ◌∷◌, ap, arith, u64_mod, u128_mod, length, All,
  length-append,
}
use fluidic_node.Prelude.Bytes.{
  Bytes, ascii, id_mod, id_bytes, to_le_bytes, to_le_bytes-append, to_be_bytes-append,
  append_cancel, length-to_le_bytes, length-to_be_bytes,
}
use fluidic_node.Crypto.VectorClock.{VectorClock}
use fluidic_node.Crypto.Shift.Stateful.{
  StatefulShift, signing_bytes, clock_bytes, predecessor_bytes,
}

-- The widths of the Rust types.
pub record HasWidths (s : StatefulShift) : Type 0 where
  pub domain : s.domain < id_mod
  pub sender : s.sender < id_mod
  pub to : s.to < id_mod
  pub amount : s.amount < u128_mod
  pub vector_clock : All (λ e. (e.0 < id_mod) × (e.1 < u64_mod)) s.vector_clock
  pub predecessors : All (λ p. p < id_mod) s.predecessors
  pub nonce : s.nonce < u64_mod
  pub timestamp_ns : s.timestamp_ns < u64_mod

length-clock_bytes :
    (c : VectorClock) (rest : Bytes) → length (clock_bytes c rest) ≡ 40 * length c + length rest
unfolding clock_bytes
length-clock_bytes [] rest = omega arith
length-clock_bytes ((k, t) ∷ c) rest = omega (
  arith,
  length-append (id_bytes k) (to_le_bytes 8 t ++ clock_bytes c rest),
  length-append (to_le_bytes 8 t) (clock_bytes c rest),
  length-to_be_bytes 32 k,
  length-to_le_bytes 8 t,
  length-clock_bytes c rest,
)

length-predecessor_bytes :
    (ps : List ℕ) (rest : Bytes) → length (predecessor_bytes ps rest) ≡ 32 * length ps + length rest
unfolding predecessor_bytes
length-predecessor_bytes [] rest = omega arith
length-predecessor_bytes (p ∷ ps) rest = omega (
  arith,
  length-append (id_bytes p) (predecessor_bytes ps rest),
  length-to_be_bytes 32 p,
  length-predecessor_bytes ps rest,
)

clock_bytes_split :
    (c d : VectorClock) {xs ys : Bytes}
    → length c ≡ length d
    → All (λ e. (e.0 < id_mod) × (e.1 < u64_mod)) c
    → All (λ e. (e.0 < id_mod) × (e.1 < u64_mod)) d
    → clock_bytes c xs ≡ clock_bytes d ys
    → (c ≡ d) × (xs ≡ ys)
unfolding clock_bytes
clock_bytes_split [] [] h hc hd p = (λ i. [], p)
clock_bytes_split [] (e ∷ d) h hc hd p = absurd (omega arith)
clock_bytes_split (e ∷ c) [] h hc hd p = absurd (omega arith)
clock_bytes_split ((k, t) ∷ c) ((j, u) ∷ d) h hc hd p =
    let q = to_be_bytes-append 32 k j hc.0.0 hd.0.0 p in
    let r = to_le_bytes-append 8 t u hc.0.1 hd.0.1 q.1 in
    let s = clock_bytes_split c d (omega arith) hc.1 hd.1 r.1 in (λ i. (q.0 i, r.0 i) ∷ s.0 i, s.1)

predecessor_bytes_split :
    (ps qs : List ℕ) {xs ys : Bytes}
    → length ps ≡ length qs
    → All (λ p. p < id_mod) ps
    → All (λ p. p < id_mod) qs
    → predecessor_bytes ps xs ≡ predecessor_bytes qs ys
    → (ps ≡ qs) × (xs ≡ ys)
unfolding predecessor_bytes
predecessor_bytes_split [] [] h hp hq p = (λ i. [], p)
predecessor_bytes_split [] (e ∷ d) h hp hq p = absurd (omega arith)
predecessor_bytes_split (e ∷ c) [] h hp hq p = absurd (omega arith)
predecessor_bytes_split (k ∷ ps) (j ∷ qs) h hp hq p =
    let q = to_be_bytes-append 32 k j hp.0 hq.0 p in
    let s = predecessor_bytes_split ps qs (omega arith) hp.1 hq.1 q.1 in (λ i. q.0 i ∷ s.0 i, s.1)

-- the last two numbers of the message
abbrev tail : StatefulShift → Bytes
tail s = to_le_bytes 8 s.nonce ++ to_le_bytes 8 s.timestamp_ns

same_counts :
    (s t : StatefulShift)
    → length s.predecessors ≡ length t.predecessors
    → clock_bytes s.vector_clock (predecessor_bytes s.predecessors (tail s))
      ≡ clock_bytes t.vector_clock (predecessor_bytes t.predecessors (tail t))
    → length s.vector_clock ≡ length t.vector_clock
same_counts s t h p =
    let e : length (clock_bytes s.vector_clock (predecessor_bytes s.predecessors (tail s)))
        ≡ length (clock_bytes t.vector_clock (predecessor_bytes t.predecessors (tail t))) =
      ap length p in
    omega (
      arith,
      e,
      length-clock_bytes s.vector_clock (predecessor_bytes s.predecessors (tail s)),
      length-clock_bytes t.vector_clock (predecessor_bytes t.predecessors (tail t)),
      length-predecessor_bytes s.predecessors (tail s),
      length-predecessor_bytes t.predecessors (tail t),
      tail_length s,
      tail_length t,
    )
  where
    tail_length : (s : StatefulShift) → length (tail s) ≡ 16
    tail_length s = omega (
      arith,
      length-append (to_le_bytes 8 s.nonce) (to_le_bytes 8 s.timestamp_ns),
      length-to_le_bytes 8 s.nonce,
      length-to_le_bytes 8 s.timestamp_ns,
    )

-- Two stateful shifts with as many predecessors, whose fields fit their types and that are signed
-- over the same bytes, agree in every field but the first sighting and the signature.
pub signing_bytes_determined :
    (s t : StatefulShift)
    → HasWidths s
    → HasWidths t
    → length s.predecessors ≡ length t.predecessors
    → signing_bytes s ≡ signing_bytes t
    → record s { first_seen_at_ns = t.first_seen_at_ns; signature = t.signature } ≡ t
unfolding signing_bytes
signing_bytes_determined s t hs ht n p =
    let r0 = append_cancel (ascii "FLUIDIC:STATEFUL:v2") p in
    let r1 = to_be_bytes-append 32 s.domain t.domain hs.domain ht.domain r0 in
    let r2 = to_be_bytes-append 32 s.sender t.sender hs.sender ht.sender r1.1 in
    let r3 = to_be_bytes-append 32 s.to t.to hs.to ht.to r2.1 in
    let r4 = to_le_bytes-append 16 s.amount t.amount hs.amount ht.amount r3.1 in
    let r5 =
      clock_bytes_split s.vector_clock t.vector_clock (same_counts s t n r4.1) hs.vector_clock
        ht.vector_clock r4.1 in
    let r6 =
      predecessor_bytes_split s.predecessors t.predecessors n hs.predecessors ht.predecessors
        r5.1 in
    let r7 = to_le_bytes-append 8 s.nonce t.nonce hs.nonce ht.nonce r6.1 in
    let r8 =
      to_le_bytes-append 8 s.timestamp_ns t.timestamp_ns hs.timestamp_ns ht.timestamp_ns
        (ap (λ x. x ++ []) r7.1) in
    λ i. record {
      domain = r1.0 i;
      sender = r2.0 i;
      to = r3.0 i;
      amount = r4.0 i;
      vector_clock = r5.0 i;
      predecessors = r6.0 i;
      nonce = r7.0 i;
      timestamp_ns = r8.0 i;
      first_seen_at_ns = t.first_seen_at_ns;
      signature = t.signature;
    }
