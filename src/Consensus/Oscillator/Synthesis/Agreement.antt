-- ===== src/Consensus/Oscillator/Synthesis/Agreement.antt =====
-- The field and the DAG after a commit of src/consensus/oscillator.rs.
use fluidic_node.Prelude.{
  ℕ, ◌≡◌, ◌∙◌, sym, ap, refl, true, List, [], ◌∷◌, none, some, if◌then◌else◌, nat_beq, nat_eq, any,
  arith, Bool-cases, inl, inr, none_ne_some,
}
use fluidic_node.Prelude.Map.{Map, lookup, IsMap, lookup-modify}
use fluidic_node.Field.WaveField.{
  WaveField, Balance, account_balance, write_account, ensure_account,
}
use fluidic_node.Field.WaveField.Transfers.{units, lookup-ensure}
use fluidic_node.Consensus.Oscillator.{Oscillator}
use fluidic_node.Consensus.Oscillator.Synthesis.{Settlement, sync_field, commit}

account_balance-write_account :
    (j id : ℕ) (g : Balance → Balance) (f : WaveField)
    → account_balance j (write_account id g f)
      ≡ (if nat_beq id j then g (account_balance id f) else account_balance j f)
unfolding account_balance
account_balance-write_account j id g f =
    let m = (ensure_account id f).accounts in
    ground (arith, lookup-modify j id g m, lookup-ensure j id f)

abbrev written : ℕ → List ℕ → ℕ → ℕ → Balance → Balance
written tick active account balance b =
    if any (nat_beq account) active
    then record b { units = balance; last_active_tick = tick }
    else record b { units = balance }

sync_field-absent :
    (tick : ℕ) (active : List ℕ) (j : ℕ) (m : Map ℕ ℕ) (f : WaveField)
    → lookup j m ≡ none
    → account_balance j (sync_field tick active m f) ≡ account_balance j f
unfolding sync_field
sync_field-absent tick active j [] f e = refl
sync_field-absent tick active j ((a, x) ∷ m) f e = elim (Bool-cases (nat_beq a j)) [
  | inl own ↦ let bad : some x ≡ none = rw own at e in absurd (none_ne_some (sym bad))
  | inr other ↦
      let f' = write_account a (written tick active a x) f in
      sync_field-absent tick active j m f' (rw other at e)
      ∙ account_balance-write_account j a (written tick active a x) f
      ∙ rw other refl
]

sync_field-present :
    (tick : ℕ) (active : List ℕ) (j x : ℕ) (m : Map ℕ ℕ) (f : WaveField)
    → IsMap m
    → lookup j m ≡ some x
    → account_balance j (sync_field tick active m f) ≡ written tick active j x (account_balance j f)
unfolding sync_field
sync_field-present tick active j x [] f once e = absurd (none_ne_some e)
sync_field-present tick active j x ((a, y) ∷ m) f once e =
    let f' = write_account a (written tick active a y) f in
    let one = account_balance-write_account j a (written tick active a y) f in
    elim (Bool-cases (nat_beq a j)) [
      | inl own ↦
          let key : a ≡ j = ground arith in
          let value : y ≡ x = ground arith in
          let gone : lookup j m ≡ none = rw key at once.0 in
          sync_field-absent tick active j m f' gone ∙ one ∙ rw (own, key, value) refl
      | inr other ↦
          sync_field-present tick active j x m f' once.1 (rw other at e)
          ∙ ap (written tick active j x) {y = account_balance j f} (one ∙ rw other refl)
    ]

-- After a commit the DAG holds the committed balances, and the field agrees with it on every account
-- of these, which are listed once each; an active one of them has the tick as its last activity. The
-- field's other accounts are as before.
pub commit_agrees :
    (tick : ℕ) (s : Settlement) (balances : Map ℕ ℕ) (o : Oscillator)
    → IsMap balances
    → let o' = commit tick s balances o in
      (o'.dag.balances ≡ balances)
      × ((j x : ℕ) → lookup j balances ≡ some x → units j o'.field ≡ x)
      × ((j x : ℕ)
          → lookup j balances ≡ some x
          → any (nat_beq j) s.active ≡ true
          → (account_balance j o'.field).last_active_tick ≡ tick)
      × ((j : ℕ)
          → lookup j balances ≡ none
          → account_balance j o'.field ≡ account_balance j o.field)
unfolding commit
commit_agrees tick s balances o once = (
  refl,
  λ j x e.
      ap (λ b. b.units) (sync_field-present tick s.active j x balances o.field once e)
      ∙ ground arith,
  λ j x e live.
      ap (λ b. b.last_active_tick) (sync_field-present tick s.active j x balances o.field once e)
      ∙ rw live refl,
  λ j e. sync_field-absent tick s.active j balances o.field e,
)
