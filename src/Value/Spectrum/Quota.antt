-- ===== src/Value/Spectrum/Quota.antt =====
-- Which lease a bin of src/value/spectrum.rs is charged to.
use fluidic_node.Prelude.{
  ℕ, ◌+◌, ◌<◌, ◌≡◌, ◌⊎◌, true, [], ◌∷◌, some, arith, All, ok, err, nat_eq, pair_eq, list_eq,
}
use fluidic_node.Prelude.Map.{Map, lookup, modify}
use fluidic_node.Value.Spectrum.{
  Spectrum, BandLease, lease_for, find_lease, authorize, authorize_in, covers, quota_exceeded,
}
use fluidic_node.Value.Spectrum.Leases.{IsAllocated, AreAllocated, Disjoint}

All-lookup :
    (a : BandLease) (k : ℕ) (l : BandLease) (m : Map ℕ BandLease)
    → All (λ d. Disjoint a d.1) m
    → lookup k m ≡ some l
    → Disjoint a l
All-lookup a k l [] h e = absurd (ground arith)
All-lookup a k l ((j, w) ∷ m) h e = ground (arith, All-lookup a k l m h.1)

find_covering :
    (size bin k : ℕ) (l : BandLease) (m : Map ℕ BandLease)
    → AreAllocated size m
    → lookup k m ≡ some l
    → covers bin l ≡ true
    → find_lease bin m ≡ some l
unfolding find_lease
find_covering size bin k l [] h e c = e
find_covering size bin k l ((j, w) ∷ m) h e c =
    ground (arith, find_covering size bin k l m h.2, All-lookup w k l m h.1)

abbrev pub charge : BandLease → BandLease
charge l = record l { used_throughput = l.used_throughput + 1 }

authorize_covering :
    (size bin k : ℕ) (l : BandLease) (m : Map ℕ BandLease)
    → AreAllocated size m
    → lookup k m ≡ some l
    → covers bin l ≡ true
    → ((l.used_throughput < l.throughput_quota) × (authorize_in bin m ≡ (modify k charge m, ok tt)))
      ⊎ ((l.used_throughput ≡ l.throughput_quota)
          × (authorize_in bin m ≡ (m, err (quota_exceeded l.start_bin l.end_bin))))
unfolding authorize_in
authorize_covering size bin k l [] h e c = absurd (ground arith)
authorize_covering size bin k l ((j, w) ∷ m) h e c =
    ground (arith, authorize_covering size bin k l m h.2, All-lookup w k l m h.1)

-- In a well-formed table a bin that some lease covers is charged to that lease and no other, in
-- whatever order the table is read: the lease is found, and one use is added to it while its quota
-- lasts; a lease that has used its quota refuses and nothing changes.
pub authorize_charges :
    (s : Spectrum) (bin k : ℕ) (l : BandLease)
    → IsAllocated s
    → lookup k s.leases ≡ some l
    → covers bin l ≡ true
    → (lease_for bin s ≡ some l)
      × (((l.used_throughput < l.throughput_quota)
            × (authorize bin s ≡ (record s { leases = modify k charge s.leases }, ok tt)))
          ⊎ ((l.used_throughput ≡ l.throughput_quota)
              × (authorize bin s ≡ (s, err (quota_exceeded l.start_bin l.end_bin)))))
unfolding lease_for authorize
authorize_charges s bin k l h e c = (
  find_covering s.size bin k l s.leases h e c,
  ground (arith, authorize_covering s.size bin k l s.leases h e c),
)
