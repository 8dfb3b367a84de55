-- ===== src/Field/WaveField/Transfers.antt =====
-- Credits and debits of src/field/wave_field.rs, by the units that the accounts read afterwards.
use fluidic_node.Prelude.{
  ℕ, ◌+◌, ◌≤◌, ◌<◌, ◌≡◌, ◌≢◌, ◌⊎◌, true, false, some, if◌then◌else◌, nat_beq, nat_eq, arith,
  u128_mod,
}
use fluidic_node.Prelude.Map.{lookup, unwrap_or, lookup-insert, lookup-modify}
use fluidic_node.Field.WaveField.{
  WaveField, zero_balance, add_units, sub_units, ensure_account, credit_account, debit_account,
  account_balance,
}

abbrev pub units : ℕ → WaveField → ℕ
units id f = (account_balance id f).units

pub lookup-ensure :
    (j id : ℕ) (f : WaveField)
    → lookup j (ensure_account id f).accounts
      ≡ (if nat_beq id j then some (account_balance id f) else lookup j f.accounts)
unfolding ensure_account account_balance
lookup-ensure j id f = lookup-insert j id (unwrap_or (lookup id f.accounts) zero_balance) f.accounts

-- A credit adds its amount to the account while that fits 128 bits, and changes no other account.
pub credit_account_lem :
    (id amount : ℕ) (f : WaveField)
    → units id f + amount < u128_mod
    → (units id (credit_account id amount f) ≡ units id f + amount)
      × ((j : ℕ) → j ≢ id → account_balance j (credit_account id amount f) ≡ account_balance j f)
unfolding credit_account account_balance
credit_account_lem id amount f h =
    let m = (ensure_account id f).accounts in
    (
      ground (arith, lookup-modify id id (add_units amount) m, lookup-ensure id id f),
      λ j ne. ground (arith, lookup-modify j id (add_units amount) m, lookup-ensure j id f),
    )

-- A debit succeeds exactly when the account has its amount; it then takes the amount, and a refused
-- debit leaves every balance as it was. No other account changes.
pub debit_account_lem :
    (id amount : ℕ) (f : WaveField)
    → let (f', taken) = debit_account id amount f in
      (((amount ≤ units id f) × (taken ≡ true) × (units id f' + amount ≡ units id f))
        ⊎ ((units id f < amount)
            × (taken ≡ false)
            × (account_balance id f' ≡ account_balance id f)))
      × ((j : ℕ) → j ≢ id → account_balance j f' ≡ account_balance j f)
unfolding debit_account account_balance
debit_account_lem id amount f =
    let m = (ensure_account id f).accounts in
    let own = lookup-ensure id id f in
    (
      ground (arith, lookup-modify id id (sub_units amount) m, own),
      λ j ne. ground (arith, lookup-modify j id (sub_units amount) m, own, lookup-ensure j id f),
    )
