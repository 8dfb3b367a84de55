-- ===== src/Value/Spectrum/Tests.antt =====
-- Runs and instances for src/value/spectrum.rs.
use fluidic_node.Prelude.{◌≡◌, refl, List, [], ◌∷◌, arith, err, nat_eq, pair_eq, list_eq}
use fluidic_node.Value.Spectrum.{Spectrum, BandLease, new, lease, overlaps, overlap}
use fluidic_node.Value.Spectrum.Leases.{
  Call, leases, authorizes, run, IsAllocated, run-new-IsAllocated,
}

abbrev calls : List Call
calls = leases 1 0 64 5 2 ∷ leases 2 32 96 5 2 ∷ leases 2 64 96 5 1 ∷ authorizes 70 ∷ []

run-new-IsAllocated_example : IsAllocated (run (new 1024) calls)
run-new-IsAllocated_example = run-new-IsAllocated 1024 calls (omega arith)

abbrev low : BandLease
low = record {
  owner = 1;
  start_bin = 0;
  end_bin = 64;
  staked_amount = 5;
  throughput_quota = 2;
  used_throughput = 1;
}

abbrev high : BandLease
high = record {
  owner = 2;
  start_bin = 64;
  end_bin = 96;
  staked_amount = 5;
  throughput_quota = 1;
  used_throughput = 1;
}

abbrev table : Spectrum
table = record { size = 1024; leases = (0, low) ∷ (64, high) ∷ [] }

overlapping_refused : lease 7 90 100 5 5 table ≡ err overlaps
unfolding lease overlap
overlapping_refused = refl
