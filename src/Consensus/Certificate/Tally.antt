-- ===== src/Consensus/Certificate/Tally.antt =====
-- The stake that the tracker of src/consensus/certificate.rs counts for a tick.
use fluidic_node.Prelude.{
  ℕ, ◌+◌, ◌<◌, ◌≡◌, sym, ◌∙◌, List, [], ◌∷◌, none, arith, if◌then◌else◌, nat_beq, u128_mod, sum,
  map, add_u128, ap, ◌≢◌, All, inl, inr, Bool-cases, Option-cases, nat_eq, pair_eq, list_eq,
}
use fluidic_node.Prelude.Map.{
  Map, lookup, insert, unwrap_or, sum_by, sum_by-insert, amount-le-sum_by, IsMap, Distinct,
  lookup-insert,
}
use fluidic_node.Consensus.Certificate.{
  SynthesisCertificate, CertificateTracker, QuorumView, view_of, tally, accept, view_eq,
}

-- the operators that have a certificate for a tick
unfoldable pub voters : ℕ → Map (ℕ × ℕ) SynthesisCertificate → List ℕ
voters tick [] = []
voters tick (((op, tk), c) ∷ m) = if nat_beq tk tick then op ∷ voters tick m else voters tick m

-- the groups of a tick, and their stake
abbrev pub groups : ℕ → CertificateTracker → Map QuorumView ℕ
groups tick t = unwrap_or (lookup tick t.by_tick) []

abbrev pub tallied : ℕ → CertificateTracker → ℕ
tallied tick t = sum_by (λ s. s) (groups tick t)

-- the stake of the operators that have voted, by a given stake of each
abbrev pub voted : (ℕ → ℕ) → ℕ → CertificateTracker → ℕ
voted w tick t = sum (map w (voters tick t.by_operator_tick))

-- Each tick's groups hold the stake of the operators that voted for it.
abbrev pub IsTallied : (ℕ → ℕ) → CertificateTracker → Type 0
IsTallied w t = (tick : ℕ) → tallied tick t ≡ voted w tick t

sum-tally :
    (v : QuorumView) (stake : ℕ) (g : Map QuorumView ℕ)
    → sum_by (λ s. s) g + stake < u128_mod
    → sum_by (λ s. s) (tally v stake g) ≡ sum_by (λ s. s) g + stake
unfolding tally
sum-tally v stake g h = elim (Option-cases (lookup v g)) [
  | inl fresh ↦ rw fresh (ground (arith, fresh, sum_by-insert (λ x. x) v stake g))
  | inr (s, old) ↦ rw old (
      ground
        (arith, old, amount-le-sum_by (λ x. x) v g, sum_by-insert (λ x. x) v (add_u128 s stake) g))
]

voters-insert :
    (w : ℕ → ℕ) (tick op tk : ℕ) (c : SynthesisCertificate) (m : Map (ℕ × ℕ) SynthesisCertificate)
    → lookup (op, tk) m ≡ none
    → sum (map w (voters tick (insert (op, tk) c m))) ≡ (
        if nat_beq tk tick then sum (map w (voters tick m)) + w op else sum (map w (voters tick m)))
unfolding voters
voters-insert w tick op tk c [] h = ground arith
voters-insert w tick op tk c (((op', tk'), c') ∷ m) h =
    ground (arith, voters-insert w tick op tk c m)

pub groups-accept :
    (tick stake : ℕ) (c : SynthesisCertificate) (t : CertificateTracker)
    → groups tick (accept stake c t)
      ≡ (if nat_beq c.tick tick then tally (view_of c) stake (groups tick t) else groups tick t)
unfolding accept
groups-accept tick stake c t =
    ground (arith, lookup-insert tick c.tick (tally (view_of c) stake (groups c.tick t)) t.by_tick)

-- A new certificate adds its operator's stake to the groups of its tick, and to no other tick.
pub accept-IsTallied :
    (w : ℕ → ℕ) (c : SynthesisCertificate) (t : CertificateTracker)
    → lookup (c.operator, c.tick) t.by_operator_tick ≡ none
    → voted w c.tick t + w c.operator < u128_mod
    → IsTallied w t
    → IsTallied w (accept (w c.operator) c t)
unfolding accept
accept-IsTallied w c t fresh bound h tick =
    let g = groups-accept tick (w c.operator) c t in
    let v = voters-insert w tick c.operator c.tick c t.by_operator_tick fresh in
    elim (Bool-cases (nat_beq c.tick tick)) [
      | inl same ↦
          let e : c.tick ≡ tick = ground arith in
          let b : voted w tick t + w c.operator < u128_mod = rw e at bound in
          ap (sum_by (λ s. s)) (rw same at g)
          ∙ sum-tally (view_of c) (w c.operator) (groups tick t) (omega (arith, h tick, b))
          ∙ ap (λ x. x + w c.operator) (h tick)
          ∙ sym (rw same at v)
      | inr other ↦ ap (sum_by (λ s. s)) (rw other at g) ∙ h tick ∙ sym (rw other at v)
    ]

pub voters_others :
    (op tick : ℕ) (m : Map (ℕ × ℕ) SynthesisCertificate)
    → lookup (op, tick) m ≡ none
    → All (λ j. j ≢ op) (voters tick m)
unfolding voters
voters_others op tick [] h = tt
voters_others op tick (((op', tk'), c) ∷ m) h = ground (arith, voters_others op tick m)

-- The voters of a tick are distinct operators.
pub voters-Distinct :
    (tick : ℕ) (m : Map (ℕ × ℕ) SynthesisCertificate) → IsMap m → Distinct (voters tick m)
unfolding voters
voters-Distinct tick [] u = tt
voters-Distinct tick (((op, tk), c) ∷ m) u =
    ground (arith, voters-Distinct tick m u.1, voters_others op tick m)
