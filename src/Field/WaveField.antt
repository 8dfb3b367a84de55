-- ===== src/Field/WaveField.antt =====
-- `WaveField`, src/field/wave_field.rs: balances and their decay. The frequency vectors, which
-- nothing writes, are left out.
pub mod Transfers
pub mod Decay
mod Tests
use fluidic_node.Prelude.{
  ℕ, ℤ, pos, negsuc, suc, ◌-◌, Bool, true, false, ◌&&◌, ◌||◌, not, List, [], ◌∷◌, none, some,
  if◌then◌else◌, replicate, ltb, leb, nat_beq, saturating_add, saturating_mul, saturating_sub,
  nat_eq, Result, ok, err,
}
use fluidic_node.Prelude.Map.{Map, lookup, modify, update, unwrap_or, insert}
use mathlib.Core.Option
use fluidic_node.Value.Supply.{wave_precision}
use fluidic_node.Consensus.Ntt.{NttEngine, new_engine}
use fluidic_node.Value.Metabolic.{
  decayed_balance, default_dex_lambda_ppm, metabolic_idle_grace_ticks,
}
use fluidic_node.Operator.Rewards.{default_dex_domain}

pub record Balance : Type 0 where
  pub units : ℕ
  pub last_decay_tick : ℕ
  pub domain : ℕ
  pub rate_ppm : ℕ
  pub decays : Bool
  pub last_active_tick : ℕ

-- `Balance::default`
abbrev pub zero_balance : Balance
zero_balance = record {
  units = 0;
  last_decay_tick = 0;
  domain = default_dex_domain;
  rate_ppm = default_dex_lambda_ppm;
  decays = true;
  last_active_tick = 0;
}

abbrev pub from_wave : ℕ → Balance
from_wave wave = record zero_balance { units = saturating_mul wave wave_precision }

abbrev pub sub_units : ℕ → Balance → Balance
sub_units amount b = record b { units = saturating_sub b.units amount }

abbrev pub add_units : ℕ → Balance → Balance
add_units amount b = record b { units = saturating_add b.units amount }

pub record WaveField : Type 0 where
  pub accounts : Map ℕ Balance
  pub pools : Map ℕ Balance
  pub ntt_engine : NttEngine
  pub spectrum : List ℕ

-- `WaveField::new`, which panics on the sizes that the engine refuses
abbrev pub new : ℕ → WaveField
new ntt_size = record {
  accounts = [];
  pools = [];
  ntt_engine = new_engine ntt_size;
  spectrum = replicate ntt_size 0;
}

-- `entry(id).or_insert(default)`
unfoldable pub ensure_account : ℕ → WaveField → WaveField
ensure_account id f = record f { accounts = update id zero_balance (λ b. b) f.accounts }

-- `ensure_account`, then a write through `get_mut`
abbrev pub write_account : ℕ → (Balance → Balance) → WaveField → WaveField
write_account id g f =
    let f' = ensure_account id f in record f' { accounts = modify id g f'.accounts }

unfoldable pub set_non_decaying : ℕ → WaveField → WaveField
set_non_decaying id f = write_account id (λ b. record b { decays = false }) f

unfoldable pub mark_active : ℕ → ℕ → WaveField → WaveField
mark_active id now f = write_account id (λ b. record b { last_active_tick = now }) f

unfoldable pub credit_account : ℕ → ℕ → WaveField → WaveField
credit_account id amount f = write_account id (add_units amount) f

unfoldable pub debit_account : ℕ → ℕ → WaveField → WaveField × Bool
debit_account id amount f =
    let f' = ensure_account id f in
    elim (lookup id f'.accounts) [
      | none ↦ (f', false)
      | some b ↦
          if ltb b.units amount
          then (f', false)
          else (record f' { accounts = modify id (sub_units amount) f'.accounts }, true)
    ]

unfoldable pub account_balance : ℕ → WaveField → Balance
account_balance id f = unwrap_or (lookup id f.accounts) zero_balance

unfoldable pub pool_balance : ℕ → WaveField → Balance
pool_balance id f = unwrap_or (lookup id f.pools) zero_balance

pub data PoolError : Type 0 where
  would_go_negative : ℕ → ℕ → PoolError

-- The entry is made before the test: a refused delta leaves an empty pool behind.
unfoldable pub apply_commutative_delta : ℕ → ℤ → WaveField → WaveField × Result (Unit {0}) PoolError
apply_commutative_delta pool_id delta f =
    let balance = pool_balance pool_id f in
    elim delta [
      | pos n ↦ (record f { pools = insert pool_id (add_units n balance) f.pools }, ok tt)
      | negsuc n ↦
          if ltb balance.units (suc n)
          then (
            record f { pools = insert pool_id balance f.pools },
            err (would_go_negative pool_id (suc n)),
          )
          else (record f { pools = insert pool_id (sub_units (suc n) balance) f.pools }, ok tt)
    ]

-- `decay_balance_in_place` returns the balance that it wrote and the burned units.
unfoldable pub decay_balance_in_place : ℕ → ℕ → Balance → Balance × ℕ
decay_balance_in_place now rate_ppm b =
    let kept : Balance = record b { last_decay_tick = now } in
    if not b.decays
    then (kept, 0)
    else if not (nat_beq b.last_active_tick 0)
        && leb (saturating_sub now b.last_active_tick) metabolic_idle_grace_ticks
    then (kept, 0)
    else let elapsed : ℕ = saturating_sub now b.last_decay_tick in
      if nat_beq elapsed 0 || nat_beq b.units 0
      then (kept, 0)
      else let remaining : ℕ = decayed_balance b.units rate_ppm elapsed in
        (record b { units = remaining; last_decay_tick = now }, saturating_sub b.units remaining)

-- The `for` over the accounts; a staked operator's clock moves and its units stay.
unfoldable pub decay_accounts : ℕ → ℕ → (ℕ → Bool) → Map ℕ Balance → ℕ → Map ℕ Balance × ℕ
decay_accounts now rate_ppm immune [] total_burned = ([], total_burned)
decay_accounts now rate_ppm immune ((id, b) ∷ m) total_burned =
    let (b', burned) =
      if immune id
      then (record b { last_decay_tick = now }, 0)
      else decay_balance_in_place now rate_ppm b in
    let (m', total) =
      decay_accounts now rate_ppm immune m
        (if immune id then total_burned else saturating_add total_burned burned) in
    ((id, b') ∷ m', total)

-- The accounts, then the pools, none of which is immune.
unfoldable pub apply_metabolic_decay : ℕ → ℕ → (ℕ → Bool) → WaveField → WaveField × ℕ
apply_metabolic_decay now rate_ppm immune f =
    let (accounts, burned) = decay_accounts now rate_ppm immune f.accounts 0 in
    let (pools, total_burned) = decay_accounts now rate_ppm (λ _. false) f.pools burned in
    (record f { accounts = accounts; pools = pools }, total_burned)
