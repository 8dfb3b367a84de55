-- ===== src/Value/Spectrum.antt =====
-- Band leases, src/value/spectrum.rs. The table is a map from start bins; error texts are
-- constructors.
pub mod Leases
pub mod Quota
mod Tests
use fluidic_node.Prelude.{
  ℕ, Bool, true, false, ◌&&◌, [], ◌∷◌, Option, none, some, if◌then◌else◌, ltb, leb, add_u64,
  saturating_sub, Result, ok, err, nat_eq, pair_eq, list_eq,
}
use fluidic_node.Prelude.Map.{Map, insert, map_values}

pub record BandLease : Type 0 where
  pub owner : ℕ
  pub start_bin : ℕ
  pub end_bin : ℕ
  pub staked_amount : ℕ
  pub throughput_quota : ℕ
  pub used_throughput : ℕ

unfoldable pub bin_count : BandLease → ℕ
bin_count l = saturating_sub l.end_bin l.start_bin

abbrev pub has_quota : BandLease → Bool
has_quota l = ltb l.used_throughput l.throughput_quota

-- `consume_quota` returns the lease that it wrote and the flag.
abbrev pub consume_quota : BandLease → BandLease × Bool
consume_quota l =
    if has_quota l
    then (record l { used_throughput = add_u64 l.used_throughput 1 }, true)
    else (l, false)

pub data SpectrumError : Type 0 where
  end_not_after_start : SpectrumError
  exceeds_size : SpectrumError
  overlaps : SpectrumError
  not_leased : ℕ → SpectrumError
  quota_exceeded : ℕ → ℕ → SpectrumError

pub record Spectrum : Type 0 where
  pub size : ℕ
  pub leases : Map ℕ BandLease

unfoldable pub new : ℕ → Spectrum
new size = record { size = size; leases = [] }

-- The `for` over the leases: is there one that overlaps `[start_bin, end_bin)`?
unfoldable pub overlap : ℕ → ℕ → Map ℕ BandLease → Bool
overlap start_bin end_bin [] = false
overlap start_bin end_bin ((k, l) ∷ m) =
    if ltb start_bin l.end_bin && ltb l.start_bin end_bin then true else overlap start_bin end_bin m

unfoldable pub lease : ℕ → ℕ → ℕ → ℕ → ℕ → Spectrum → Result Spectrum SpectrumError
lease owner start_bin end_bin staked_amount throughput_quota s =
    if leb end_bin start_bin
    then err end_not_after_start
    else if ltb s.size end_bin
    then err exceeds_size
    else if overlap start_bin end_bin s.leases
    then err overlaps
    else ok (record s {
      leases =
          insert start_bin
            (record {
              owner = owner;
              start_bin = start_bin;
              end_bin = end_bin;
              staked_amount = staked_amount;
              throughput_quota = throughput_quota;
              used_throughput = 0;
            })
            s.leases;
    })

abbrev pub covers : ℕ → BandLease → Bool
covers bin l = leb l.start_bin bin && ltb bin l.end_bin

-- `values().find(..)`
unfoldable pub find_lease : ℕ → Map ℕ BandLease → Option BandLease
find_lease bin [] = none
find_lease bin ((k, l) ∷ m) = if covers bin l then some l else find_lease bin m

unfoldable pub lease_for : ℕ → Spectrum → Option BandLease
lease_for bin s = find_lease bin s.leases

-- `lease_for_mut`, and the call of `consume_quota` through it
unfoldable pub authorize_in :
    ℕ → Map ℕ BandLease → Map ℕ BandLease × Result (Unit {0}) SpectrumError
authorize_in bin [] = ([], err (not_leased bin))
authorize_in bin ((k, l) ∷ m) =
    let (rest, r) = authorize_in bin m in
    let (l', granted) = consume_quota l in
    if covers bin l
    then ((k, l') ∷ m, (if granted then ok tt else err (quota_exceeded l.start_bin l.end_bin)))
    else ((k, l) ∷ rest, r)

unfoldable pub authorize : ℕ → Spectrum → Spectrum × Result (Unit {0}) SpectrumError
authorize bin s = let (leases, r) = authorize_in bin s.leases in (record s { leases = leases }, r)

unfoldable pub reset_quotas : Spectrum → Spectrum
reset_quotas s = record s { leases = map_values (λ l. record l { used_throughput = 0 }) s.leases }
