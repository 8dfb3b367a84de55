-- ===== src/Consensus/Certificate/Quorum.antt =====
-- The views of a tick that reach the quorum of src/consensus/certificate.rs, by the stakes of one
-- table of src/operator/stake.rs.
use fluidic_node.Prelude.{
  ℕ, ◌+◌, ◌≤◌, ◌<◌, ◌≡◌, ◌≢◌, refl, sym, ap, subst, ◌∙◌, true, List, [], ◌∷◌, Option, none, some,
  arith, nat_beq, Result, u128_mod, sum, inl, inr, Bool-cases, Option-cases, sum_u128_exact, nat_eq,
  pair_eq, list_eq,
}
use fluidic_node.Prelude.Map.{Map, lookup, amount, IsMap, insert-IsMap, sum-Distinct-le}
use fluidic_node.Crypto.Signatures.{Ed25519}
use fluidic_node.Operator.Stake.{
  StakeTable, is_staked, get_stake, total_stake, quorum_threshold, unslashed_stakes,
}
use fluidic_node.Operator.Stake.Slashing.{active, sum-unslashed_stakes}
use fluidic_node.Operator.Stake.Threshold.{quorum_threshold_lem}
use fluidic_node.Consensus.Certificate.{
  SynthesisCertificate, CertificateTracker, QuorumView, view_eq, view_of, tally, accept, apply, new,
  find_quorum, check_quorum, SlashingReason,
}
use fluidic_node.Consensus.Certificate.Tally.{
  voters, groups, voted, IsTallied, accept-IsTallied, voters-Distinct, voters_others, groups-accept,
}

-- The stake of a view in a tick.
abbrev pub support : QuorumView → ℕ → CertificateTracker → ℕ
support v tick t = amount (λ s. s) (lookup v (groups tick t))

find-quorum-lookup :
    (threshold : ℕ) (g : Map QuorumView ℕ) {v : QuorumView} {s : ℕ}
    → IsMap g
    → find_quorum threshold g ≡ some (v, s)
    → (lookup v g ≡ some s) × (threshold ≤ s)
unfolding find_quorum
find-quorum-lookup threshold [] u e = absurd (ground arith)
find-quorum-lookup threshold ((w, r) ∷ g) {v} {s} u e =
    ground (arith, view_eq.same_iff w v, find-quorum-lookup threshold g {v = v} {s = s} u.1)

lookup-find_quorum :
    (threshold : ℕ) (v : QuorumView) (g : Map QuorumView ℕ)
    → 0 < threshold
    → threshold ≤ amount (λ s. s) (lookup v g)
    → find_quorum threshold g ≢ none
unfolding find_quorum
lookup-find_quorum threshold v [] p h e = absurd (omega arith)
lookup-find_quorum threshold v ((w, r) ∷ g) p h e =
    ground (arith, lookup-find_quorum threshold v g p)

pub tally-IsMap : (v : QuorumView) (s : ℕ) (g : Map QuorumView ℕ) → IsMap g → IsMap (tally v s g)
unfolding tally
tally-IsMap v s g u = insert-IsMap v _ g u

check-find :
    (tick threshold : ℕ) (t : CertificateTracker)
    → check_quorum tick threshold t ≡ find_quorum threshold (groups tick t)
unfolding check_quorum find_quorum
check-find tick threshold t = elim (Option-cases (lookup tick t.by_tick)) [
  | inl missing ↦ rw (missing, check_quorum)
  | inr (g, there) ↦ rw (there, check_quorum)
]

-- A view that `check_quorum` finds has the threshold in the tick, with the stake that is returned.
pub check_quorum-some :
    (tick threshold : ℕ) (t : CertificateTracker) (v : QuorumView) (s : ℕ)
    → IsMap (groups tick t)
    → check_quorum tick threshold t ≡ some (v, s)
    → (support v tick t ≡ s) × (threshold ≤ support v tick t)
check_quorum-some tick threshold t v s u e =
    let f =
      find-quorum-lookup threshold (groups tick t) {v = v} {s = s} u
        (sym (check-find tick threshold t) ∙ e) in
    (ap (amount (λ x. x)) f.0, rw (f.0) f.1)

-- Where it finds none, no view has the threshold.
pub check_quorum-none :
    (tick threshold : ℕ) (t : CertificateTracker) (v : QuorumView)
    → 0 < threshold
    → check_quorum tick threshold t ≡ none
    → support v tick t < threshold
check_quorum-none tick threshold t v p e =
    let missed : find_quorum threshold (groups tick t) ≡ none =
      sym (check-find tick threshold t) ∙ e in
    ground (arith, lookup-find_quorum threshold v (groups tick t) p)

module _ (ed : Ed25519) (registry : Map ℕ ed.VerifyingKey) (table : StakeTable) where
  -- the stake that the table counts for an operator
  abbrev weight : ℕ → ℕ
  weight k = amount active (lookup k table.operators)

  weight-get_stake : (k : ℕ) → is_staked k table ≡ true → get_stake k table ≡ weight k
  unfolding is_staked get_stake
  weight-get_stake k h = ground arith

  record IsCounted (t : CertificateTracker) : Type 0 where
    recorded : IsMap t.by_operator_tick
    grouped : (tick : ℕ) → IsMap (groups tick t)
    counted : IsTallied weight t

  voted_bound :
      (t : CertificateTracker) (tick : ℕ)
      → IsCounted t
      → voted weight tick t ≤ sum (unslashed_stakes table.operators)
  voted_bound t tick h = omega (
    arith,
    sum-unslashed_stakes table.operators,
    sum-Distinct-le active (voters tick t.by_operator_tick) table.operators
        (voters-Distinct tick t.by_operator_tick h.recorded),
  )

  accept-IsCounted :
      (c : SynthesisCertificate) (t : CertificateTracker)
      → sum (unslashed_stakes table.operators) < u128_mod
      → is_staked c.operator table ≡ true
      → lookup (c.operator, c.tick) t.by_operator_tick ≡ none
      → IsCounted t
      → IsCounted (accept (get_stake c.operator table) c t)
  unfolding accept
  accept-IsCounted c t small staked fresh h = record {
    recorded = insert-IsMap (c.operator, c.tick) c t.by_operator_tick h.recorded;
    grouped = λ tick. elim (Bool-cases (nat_beq c.tick tick)) [
      | inl same ↦
          subst IsMap (sym (rw same at (groups-accept tick (get_stake c.operator table) c t)))
            (tally-IsMap (view_of c) (get_stake c.operator table) (groups tick t) (h.grouped tick))
      | inr other ↦
          subst IsMap (sym (rw other at (groups-accept tick (get_stake c.operator table) c t)))
            (h.grouped tick)
    ];
    counted = rw (weight-get_stake c.operator staked) (
        accept-IsTallied weight c t fresh
          (omega (
            arith,
            sum-unslashed_stakes table.operators,
            sum-Distinct-le active (c.operator ∷ voters c.tick t.by_operator_tick) table.operators (
              voters_others c.operator c.tick t.by_operator_tick fresh,
              voters-Distinct c.tick t.by_operator_tick h.recorded,
            ),
          ))
          h.counted);
  }

  module _ {S : Type 0} (slash : ℕ → S → S) where
    -- `apply` with the two closures that read the table
    abbrev pub receive :
        SynthesisCertificate
        → CertificateTracker
        → S
        → CertificateTracker × S × Result (Unit {0}) SlashingReason
    receive c t s = apply ed registry (λ k. is_staked k table) (λ k. get_stake k table) slash c t s

    unfoldable pub receive_all :
        List SynthesisCertificate → CertificateTracker → S → CertificateTracker
    receive_all [] t s = t
    receive_all (c ∷ cs) t s = let (t', s', _) = receive c t s in receive_all cs t' s'

    receive-IsCounted :
        (c : SynthesisCertificate) (t : CertificateTracker) (s : S)
        → sum (unslashed_stakes table.operators) < u128_mod
        → IsCounted t
        → IsCounted (receive c t s).0
    unfolding apply
    receive-IsCounted c t s small h = ground (arith, accept-IsCounted c t small)

    receive_all-IsCounted :
        (cs : List SynthesisCertificate) (t : CertificateTracker) (s : S)
        → sum (unslashed_stakes table.operators) < u128_mod
        → IsCounted t
        → IsCounted (receive_all cs t s)
    unfolding receive_all
    receive_all-IsCounted [] t s small h = h
    receive_all-IsCounted (c ∷ cs) t s small h =
        let (t', s', _) = receive c t s in
        receive_all-IsCounted cs t' s' small (receive-IsCounted c t s small h)

    new-IsCounted : IsCounted new
    unfolding new voters
    new-IsCounted = record { recorded = tt; grouped = λ tick. tt; counted = λ tick. refl }

    majority :
        (t : CertificateTracker) (tick : ℕ) (v w : QuorumView)
        → IsCounted t
        → v ≢ w
        → support v tick t + support w tick t ≤ sum (unslashed_stakes table.operators)
    majority t tick v w h apart = omega (
      arith,
      sum-Distinct-le (λ s. s) (v ∷ w ∷ []) (groups tick t) (((λ e. apart (sym e)), tt), (tt, tt)),
      h.counted tick,
      voted_bound t tick h,
    )

    agree :
        (t : CertificateTracker) (tick : ℕ) (v w : QuorumView)
        → IsCounted t
        → sum (unslashed_stakes table.operators) < u128_mod
        → 0 < total_stake table
        → total_stake table ≢ 2
        → quorum_threshold table ≤ support v tick t
        → quorum_threshold table ≤ support w tick t
        → w ≡ v
    unfolding total_stake
    agree t tick v w h small some_stake not_two hv hw = elim (Bool-cases (view_eq.same w v)) [
      | inl same ↦ (view_eq.same_iff w v).0 same
      | inr apart ↦
          let differ : v ≢ w = λ e. let r = (view_eq.same_iff w v).1 (sym e) in cc in
          absurd (
            omega (
              arith,
              majority t tick v w h differ,
              sum_u128_exact (unslashed_stakes table.operators) small,
              (quorum_threshold_lem table some_stake).1 not_two,
            ))
    ]

    -- Whatever certificates arrive, in whatever order, while the stakes are those of one table whose
    -- total is positive, fits 128 bits and is not 2: at most one view of a tick reaches the quorum
    -- threshold, and where one does, `check_quorum` returns that view with its stake.
    pub quorum_unique :
        (certs : List SynthesisCertificate) (s : S) (tick : ℕ) (v : QuorumView)
        → sum (unslashed_stakes table.operators) < u128_mod
        → 0 < total_stake table
        → total_stake table ≢ 2
        → quorum_threshold table ≤ support v tick (receive_all certs new s)
        → (check_quorum tick (quorum_threshold table) (receive_all certs new s)
            ≡ some (v, support v tick (receive_all certs new s)))
          × ((w : QuorumView)
              → quorum_threshold table ≤ support w tick (receive_all certs new s)
              → w ≡ v)
    quorum_unique certs s tick v small some_stake not_two hv = (
      check-find tick thr t ∙ found (find_quorum thr (groups tick t)) refl,
      λ w hw. agree t tick v w h small some_stake not_two hv hw,
    )
      where
        t : CertificateTracker
        t = receive_all certs new s

        thr : ℕ
        thr = quorum_threshold table

        h : IsCounted t
        h = receive_all-IsCounted certs new s small new-IsCounted

        positive : 0 < thr
        positive = omega (arith, (quorum_threshold_lem table some_stake).1 not_two)

        found :
            (r : Option (QuorumView × ℕ))
            → find_quorum thr (groups tick t) ≡ r
            → r ≡ some (v, support v tick t)
        found none e = absurd (lookup-find_quorum thr v (groups tick t) positive hv e)
        found (some (u, q)) e =
            let f = find-quorum-lookup thr (groups tick t) {v = u} {s = q} (h.grouped tick) e in
            let reached : thr ≤ support u tick t = rw (f.0) f.1 in
            let same : u ≡ v = agree t tick v u h small some_stake not_two hv reached in
            let amt : q ≡ support v tick t =
              ap (amount (λ s. s)) (sym f.0) ∙ ap (λ x. support x tick t) same in
            λ i. some (same i, amt i)
