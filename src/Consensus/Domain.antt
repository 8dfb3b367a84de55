-- ===== src/Consensus/Domain.antt =====
-- Concurrency domains, src/consensus/domain.rs. Error texts are constructors, and the field
-- `commutative` is `allows_commutative` beside the ordering mode of that name.
pub mod Registration
use fluidic_node.Prelude.{
  ℕ, ◌*◌, Bool, true, [], ◌∷◌, if◌then◌else◌, leb, nat_beq, nat_eq, Option, Result, ok, err,
}
use fluidic_node.Prelude.Map.{Map, lookup, insert, contains_key}
use fluidic_node.Value.Supply.{wave_precision}
use fluidic_node.Value.Metabolic.{decay_denominator, default_dex_lambda_ppm}
use fluidic_node.Operator.Rewards.{default_dex_domain}

abbrev pub domain_reservation_fee_units : ℕ
domain_reservation_fee_units = 100 * wave_precision

pub data OrderingMode : Type 0 where
  causal commutative strict : OrderingMode

pub data FeePolicy : Type 0 where
  flat percentage : ℕ → FeePolicy
  metabolic_only : FeePolicy

pub record DomainPolicy : Type 0 where
  pub domain : ℕ
  pub allows_commutative : Bool
  pub stateful : Bool
  pub ordering : OrderingMode
  pub finalization_depth : ℕ
  pub metabolic_lambda_ppm : ℕ
  pub fee_policy : FeePolicy

abbrev pub dex_default : DomainPolicy
dex_default = record {
  domain = default_dex_domain;
  allows_commutative = true;
  stateful = true;
  ordering = causal;
  finalization_depth = 3;
  metabolic_lambda_ppm = default_dex_lambda_ppm;
  fee_policy = metabolic_only;
}

pub data PolicyError : Type 0 where
  lambda_too_large depth_zero : PolicyError

-- `DomainPolicy::new`, on the fields of a policy
unfoldable pub validated : DomainPolicy → Result DomainPolicy PolicyError
validated p =
    if leb decay_denominator p.metabolic_lambda_ppm
    then err lambda_too_large
    else if nat_beq p.finalization_depth 0
    then err depth_zero
    else ok p

abbrev pub with_metabolic_lambda : ℕ → DomainPolicy → DomainPolicy
with_metabolic_lambda rate_ppm p = record p { metabolic_lambda_ppm = rate_ppm }

abbrev pub DomainRegistry : Type 0
DomainRegistry = Map ℕ DomainPolicy

unfoldable pub register : DomainPolicy → DomainRegistry → DomainRegistry
register policy r = insert policy.domain policy r

abbrev pub new : DomainRegistry
new = (default_dex_domain, dex_default) ∷ []

abbrev pub get : ℕ → DomainRegistry → Option DomainPolicy
get domain r = lookup domain r

abbrev pub contains : ℕ → DomainRegistry → Bool
contains domain r = contains_key domain r
