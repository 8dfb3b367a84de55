-- ===== src/Value/Spectrum/Leases.antt =====
-- The table of src/value/spectrum.rs under every operation.
use fluidic_node.Prelude.{
  ℕ, ◌≤◌, ◌<◌, ◌≡◌, refl, ◌⊎◌, inl, inr, false, List, [], ◌∷◌, none, arith, All, u64_mod, Result,
  ok, err, Bool-cases, nat_beq, nat_eq, pair_eq, list_eq,
}
use fluidic_node.Prelude.Map.{Map, lookup, insert, map_values}
use fluidic_node.Value.Spectrum.{
  Spectrum, BandLease, new, lease, overlap, authorize, authorize_in, reset_quotas, covers,
  has_quota, SpectrumError,
}

-- A lease within the spectrum, stored under its first bin.
abbrev pub IsBand : ℕ → ℕ × BandLease → Type 0
IsBand size (k, l) =
    (k ≡ l.start_bin)
    × (l.start_bin < l.end_bin)
    × (l.end_bin ≤ size)
    × (l.used_throughput ≤ l.throughput_quota)
    × (l.throughput_quota < u64_mod)

abbrev pub Disjoint : BandLease → BandLease → Type 0
Disjoint a b = (a.end_bin ≤ b.start_bin) ⊎ (b.end_bin ≤ a.start_bin)

abbrev pub AreAllocated : ℕ → Map ℕ BandLease → Type 0
AreAllocated size [] = Unit
AreAllocated size (e ∷ m) = IsBand size e × All (λ d. Disjoint e.1 d.1) m × AreAllocated size m

abbrev pub IsAllocated : Spectrum → Type 0
IsAllocated s = AreAllocated s.size s.leases

overlap-All :
    (a : BandLease) (m : Map ℕ BandLease)
    → overlap a.start_bin a.end_bin m ≡ false
    → All (λ d. Disjoint d.1 a) m
unfolding overlap
overlap-All a [] h = tt
overlap-All a ((k, l) ∷ m) h = ground (arith, overlap-All a m)

-- A band apart from all others goes to the end of the table.
All-insert :
    (P : ℕ × BandLease → Type 0) (k : ℕ) (v : BandLease) (m : Map ℕ BandLease)
    → All P m
    → P (k, v)
    → lookup k m ≡ none
    → All P (insert k v m)
All-insert P k v [] h p e = (p, tt)
All-insert P k v ((j, w) ∷ m) h p e = elim (Bool-cases (nat_beq j k)) [
  | inl same ↦ absurd (ground arith)
  | inr other ↦ rw other (h.0, All-insert P k v m h.1 p (rw other at e))
]

absent :
    (size : ℕ) (a : BandLease) (m : Map ℕ BandLease)
    → a.start_bin < a.end_bin
    → AreAllocated size m
    → All (λ d. Disjoint d.1 a) m
    → lookup a.start_bin m ≡ none
absent size a [] h w d = refl
absent size a ((k, l) ∷ m) h w d = ground (arith, absent size a m h w.2 d.1)

insert-AreAllocated :
    (size : ℕ) (a : BandLease) (m : Map ℕ BandLease)
    → IsBand size (a.start_bin, a)
    → AreAllocated size m
    → All (λ d. Disjoint d.1 a) m
    → AreAllocated size (insert a.start_bin a m)
insert-AreAllocated size a [] b w d = (b, tt, tt)
insert-AreAllocated size a ((k, l) ∷ m) b w d = elim (Bool-cases (nat_beq k a.start_bin)) [
  | inl same ↦ absurd (ground arith)
  | inr other ↦ rw other (
    w.0,
    All-insert (λ e. Disjoint l e.1) a.start_bin a m w.1 d.0 (absent size a m b.1 w.2 d.1),
    insert-AreAllocated size a m b w.2 d.1,
  )
]

-- Bumping the usage of one lease moves no band.
authorize_in-All :
    (a : BandLease) (bin : ℕ) (m : Map ℕ BandLease)
    → All (λ d. Disjoint a d.1) m
    → All (λ d. Disjoint a d.1) (authorize_in bin m).0
unfolding authorize_in
authorize_in-All a bin [] h = tt
authorize_in-All a bin ((k, l) ∷ m) h = ground (arith, authorize_in-All a bin m h.1)

authorize_in-AreAllocated :
    (size bin : ℕ) (m : Map ℕ BandLease)
    → AreAllocated size m
    → AreAllocated size (authorize_in bin m).0
unfolding authorize_in
authorize_in-AreAllocated size bin [] h = tt
authorize_in-AreAllocated size bin ((k, l) ∷ m) h = elim (Bool-cases (covers bin l)) [
  | inr miss ↦ rw miss (h.0, authorize_in-All l bin m h.1, authorize_in-AreAllocated size bin m h.2)
  | inl hit ↦ elim (Bool-cases (has_quota l)) [
    | inl granted ↦ rw (hit, granted) (ground arith, h.1, h.2)
    | inr spent ↦ rw (hit, spent) h
  ]
]

reset-All :
    (a : BandLease) (m : Map ℕ BandLease)
    → All (λ d. Disjoint a d.1) m
    → All (λ d. Disjoint a d.1) (map_values (λ l. record l { used_throughput = 0 }) m)
reset-All a [] h = tt
reset-All a ((k, l) ∷ m) h = (h.0, reset-All a m h.1)

reset-AreAllocated :
    (size : ℕ) (m : Map ℕ BandLease)
    → AreAllocated size m
    → AreAllocated size (map_values (λ l. record l { used_throughput = 0 }) m)
reset-AreAllocated size [] h = tt
reset-AreAllocated size ((k, l) ∷ m) h =
    (omega arith, reset-All (record l { used_throughput = 0 }) m h.1, reset-AreAllocated size m h.2)

lease-IsAllocated :
    (owner i j stake quota : ℕ) (s t : Spectrum)
    → IsAllocated s
    → quota < u64_mod
    → lease owner i j stake quota s ≡ ok t
    → IsAllocated t
unfolding lease
lease-IsAllocated owner i j stake quota s t h q e =
    let a : BandLease = record {
      owner = owner;
      start_bin = i;
      end_bin = j;
      staked_amount = stake;
      throughput_quota = quota;
      used_throughput = 0;
    } in
    ground (arith, overlap-All a s.leases, insert-AreAllocated s.size a s.leases)

-- The calls that change the table.
pub data Call : Type 0 where
  leases : ℕ → ℕ → ℕ → ℕ → ℕ → Call
  authorizes : ℕ → Call
  resets : Call

abbrev pub settle : Spectrum → Result Spectrum SpectrumError → Spectrum
settle s (ok t) = t
settle s (err e) = s

pub step : Spectrum → Call → Spectrum
step s (leases owner i j stake quota) = settle s (lease owner i j stake quota s)
step s (authorizes bin) = (authorize bin s).0
step s resets = reset_quotas s

pub run : Spectrum → List Call → Spectrum
run s [] = s
run s (c ∷ cs) = run (step s c) cs

-- A quota is a number of 64 bits.
abbrev pub IsCall : Call → Type 0
IsCall (leases owner i j stake quota) = quota < u64_mod
IsCall c = Unit

settle-IsAllocated :
    (s : Spectrum) (r : Result Spectrum SpectrumError)
    → IsAllocated s
    → ((t : Spectrum) → r ≡ ok t → IsAllocated t)
    → IsAllocated (settle s r)
settle-IsAllocated s (ok t) h f = f t refl
settle-IsAllocated s (err e) h f = h

step-IsAllocated : (s : Spectrum) (c : Call) → IsCall c → IsAllocated s → IsAllocated (step s c)
unfolding step authorize reset_quotas
step-IsAllocated s (leases owner i j stake quota) q h =
    settle-IsAllocated s (lease owner i j stake quota s) h
      (λ t e. lease-IsAllocated owner i j stake quota s t h q e)
step-IsAllocated s (authorizes bin) q h = authorize_in-AreAllocated s.size bin s.leases h
step-IsAllocated s resets q h = reset-AreAllocated s.size s.leases h

run-IsAllocated :
    (s : Spectrum) (cs : List Call) → All IsCall cs → IsAllocated s → IsAllocated (run s cs)
unfolding run
run-IsAllocated s [] q h = h
run-IsAllocated s (c ∷ cs) q h = run-IsAllocated (step s c) cs q.1 (step-IsAllocated s c q.0 h)

-- After any calls on a new spectrum the leases are disjoint bands inside it, each stored under its
-- first bin and none used beyond its quota.
pub run-new-IsAllocated :
    (size : ℕ) (cs : List Call) → All IsCall cs → IsAllocated (run (new size) cs)
unfolding new
run-new-IsAllocated size cs q = run-IsAllocated (new size) cs q tt
