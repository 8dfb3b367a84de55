-- ===== src/Field/Batch/Sums.antt =====
-- The pools after a batch of src/field/wave_field.rs, by the sums of its deltas.
use fluidic_node.Prelude.{
  ℕ, suc, ◌+◌, ◌≤◌, ◌<◌, ◌≡◌, ◌∙◌, ap, refl, ℤ, pos, negsuc, up, down, add_i128, add_i128_lem,
  i128_max, u128_mod, List, [], ◌∷◌, some, if◌then◌else◌, nat_beq, nat_eq, Result, ok, err,
  Result-cases, arith, Bool-cases, Option-cases, inl, inr, true, false, replicate, map, set, get_or,
  saturating_add_i128,
}
use fluidic_node.Prelude.Map.{
  Map, lookup, insert, update, unwrap_or, IsMap, lookup-insert, insert-IsMap,
}
use fluidic_node.Consensus.Ntt.{ntt, intt}
use fluidic_node.Field.WaveField.{
  WaveField, PoolError, pool_balance, apply_commutative_delta, add_units, sub_units,
}
use fluidic_node.Field.Batch.{
  Delta, to_ntt_index, aggregate, apply_aggregates, batch_result, BatchError, round_trip_mismatch,
  mismatch, signed_to_field, synthesize_commutative_batch,
}

-- what the deltas of a pool add, and what they take
abbrev pub added : ℕ → List Delta → ℕ
added pool [] = 0
added pool ((coord, delta, p) ∷ ds) = (if nat_beq p pool then up delta else 0) + added pool ds

abbrev pub taken : ℕ → List Delta → ℕ
taken pool [] = 0
taken pool ((coord, delta, p) ∷ ds) = (if nat_beq p pool then down delta else 0) + taken pool ds

abbrev pub pool_units : ℕ → WaveField → ℕ
pool_units pool f = (pool_balance pool f).units

abbrev total_of : ℕ → Map ℕ ℤ → ℤ
total_of pool m = unwrap_or (lookup pool m) (pos 0)

total_of-update :
    (pool p : ℕ) (d : ℤ) (m : Map ℕ ℤ)
    → total_of pool (update p (pos 0) (λ x. add_i128 x d) m)
      ≡ (if nat_beq p pool then add_i128 (total_of pool m) d else total_of pool m)
total_of-update pool p d m =
    let v : ℤ = add_i128 (total_of p m) d in
    elim (Bool-cases (nat_beq p pool)) [
      | inl own ↦
          let same : p ≡ pool = ground arith in
          let now : lookup pool (insert p v m) ≡ some v = lookup-insert pool p v m ∙ rw own refl in
          rw own (ap (λ o. unwrap_or o (pos 0)) now ∙ ap (λ q. add_i128 (total_of q m) d) same)
      | inr other ↦
          let now : lookup pool (insert p v m) ≡ lookup pool m =
            lookup-insert pool p v m ∙ rw other refl in
          rw other (ap (λ o. unwrap_or o (pos 0)) now)
    ]

aggregate-total_of :
    (pool size : ℕ) (ds : List Delta) (bins : List ℤ) (m : Map ℕ ℤ)
    → up (total_of pool m) + added pool ds ≤ i128_max
    → down (total_of pool m) + taken pool ds ≤ i128_max
    → let t = total_of pool (aggregate size ds bins m).1 in
      (up t + (down (total_of pool m) + taken pool ds)
        ≡ down t + (up (total_of pool m) + added pool ds))
      × (up t ≤ up (total_of pool m) + added pool ds)
unfolding aggregate
aggregate-total_of pool size [] bins m h k = (omega arith, omega arith)
aggregate-total_of pool size ((coord, delta, p) ∷ ds) bins m h k =
    let m' : Map ℕ ℤ = update p (pos 0) (λ x. add_i128 x delta) m in
    let old : ℤ = total_of pool m in
    let idx : ℕ = to_ntt_index coord size in
    let bins' : List ℤ = set bins idx (saturating_add_i128 (get_or bins idx (pos 0)) delta) in
    let read = total_of-update pool p delta m in
    elim (Bool-cases (nat_beq p pool)) [
      | inl own ↦
          let now : total_of pool m' ≡ add_i128 old delta = read ∙ rw own refl in
          let h' : up old + (up delta + added pool ds) ≤ i128_max = rw own at h in
          let k' : down old + (down delta + taken pool ds) ≤ i128_max = rw own at k in
          let l = add_i128_lem old delta (omega arith) (omega arith) in
          let u : up (total_of pool m') ≡ up (add_i128 old delta) = ap up now in
          let v : down (total_of pool m') ≡ down (add_i128 old delta) = ap down now in
          let ih =
            aggregate-total_of pool size ds bins' m' (omega (arith, u, l.1))
              (omega (arith, v, l.2)) in
          rw own (omega (arith, ih.0, l.0, u, v), omega (arith, ih.1, l.1, u))
      | inr other ↦
          let now : total_of pool m' ≡ old = read ∙ rw other refl in
          let h' : up old + (0 + added pool ds) ≤ i128_max = rw other at h in
          let k' : down old + (0 + taken pool ds) ≤ i128_max = rw other at k in
          let u : up (total_of pool m') ≡ up old = ap up now in
          let v : down (total_of pool m') ≡ down old = ap down now in
          let ih = aggregate-total_of pool size ds bins' m' (omega (arith, u)) (omega (arith, v)) in
          rw other (omega (arith, ih.0, u, v), omega (arith, ih.1, u))
    ]

aggregate-IsMap :
    (size : ℕ) (ds : List Delta) (bins : List ℤ) (m : Map ℕ ℤ)
    → IsMap m
    → IsMap (aggregate size ds bins m).1
unfolding aggregate
aggregate-IsMap size [] bins m h = h
aggregate-IsMap size ((coord, delta, p) ∷ ds) bins m h =
    aggregate-IsMap size ds _ _ (insert-IsMap p (add_i128 (total_of p m) delta) m h)

-- One aggregate that is applied moves its own pool.
apply_delta-own :
    (pool p : ℕ) (x : ℤ) (f : WaveField)
    → (apply_commutative_delta p x f).1 ≡ ok tt
    → nat_beq p pool ≡ true
    → pool_units pool f + up x < u128_mod
    → pool_units pool (apply_commutative_delta p x f).0 + down x ≡ pool_units pool f + up x
unfolding apply_commutative_delta pool_balance
apply_delta-own pool p (pos n) f e own b =
    ground (arith, lookup-insert pool p (add_units n (pool_balance p f)) f.pools)
apply_delta-own pool p (negsuc n) f e own b =
    ground (arith, lookup-insert pool p (sub_units (suc n) (pool_balance p f)) f.pools)

apply_delta-other :
    (pool p : ℕ) (x : ℤ) (f : WaveField)
    → (apply_commutative_delta p x f).1 ≡ ok tt
    → nat_beq p pool ≡ false
    → pool_units pool (apply_commutative_delta p x f).0 ≡ pool_units pool f
unfolding apply_commutative_delta pool_balance
apply_delta-other pool p (pos n) f e ne =
    ground (arith, lookup-insert pool p (add_units n (pool_balance p f)) f.pools)
apply_delta-other pool p (negsuc n) f e ne =
    ground (arith, lookup-insert pool p (sub_units (suc n) (pool_balance p f)) f.pools)

apply_aggregates-units :
    (pool : ℕ) (m : Map ℕ ℤ) (f : WaveField)
    → IsMap m
    → (apply_aggregates m f).1 ≡ ok tt
    → pool_units pool f + up (total_of pool m) < u128_mod
    → pool_units pool (apply_aggregates m f).0 + down (total_of pool m)
      ≡ pool_units pool f + up (total_of pool m)
unfolding apply_aggregates
apply_aggregates-units pool [] f once e b = refl
apply_aggregates-units pool ((p, x) ∷ m) f once e b =
    let f' = (apply_commutative_delta p x f).0 in
    elim (Result-cases (apply_commutative_delta p x f).1) [
      | inr (err_value, failed) ↦
          let bad : err err_value ≡ ok tt = rw (apply_aggregates, failed) at e in
          absurd (ground arith)
      | inl (u, done) ↦
          let rest : (apply_aggregates m f').1 ≡ ok tt = rw (apply_aggregates, done) at e in
          elim (Bool-cases (nat_beq p pool)) [
            | inl own ↦
                let b' : pool_units pool f + up x < u128_mod = rw own at b in
                let one : pool_units pool f' + down x ≡ pool_units pool f + up x =
                  apply_delta-own pool p x f done own b' in
                let gone : total_of pool m ≡ pos 0 = ground (arith, once.0) in
                let ih =
                  apply_aggregates-units pool m f' once.1 rest
                    (omega (arith, ap up gone, one, b')) in
                rw (apply_aggregates, done, own) (omega (arith, one, ih, ap up gone, ap down gone))
            | inr other ↦
                let b' : pool_units pool f + up (total_of pool m) < u128_mod = rw other at b in
                let one : pool_units pool f' ≡ pool_units pool f =
                  apply_delta-other pool p x f done other in
                let ih = apply_aggregates-units pool m f' once.1 rest (omega (arith, one, b')) in
                rw (apply_aggregates, done, other) (omega (arith, one, ih))
          ]
    ]

abbrev batch_failed : ℕ → Result (Unit {0}) BatchError
batch_failed i = err (round_trip_mismatch i)

-- After a batch that succeeds, the units of a pool and what its deltas take are its units before and
-- what its deltas add. Both sums fit 127 bits, and the sum of the units before and what is added fits 128.
pub synthesize_commutative_batch_sums :
    (pool : ℕ) (ds : List Delta) (f : WaveField)
    → (synthesize_commutative_batch ds f).1 ≡ ok tt
    → added pool ds ≤ i128_max
    → taken pool ds ≤ i128_max
    → pool_units pool f + added pool ds < u128_mod
    → pool_units pool (synthesize_commutative_batch ds f).0 + taken pool ds
      ≡ pool_units pool f + added pool ds
unfolding synthesize_commutative_batch pool_balance
synthesize_commutative_batch_sums pool ds f e ha ht hu =
    let size : ℕ = f.ntt_engine.size in
    let agg = aggregate size ds (replicate size (pos 0)) [] in
    let spectrum = ntt f.ntt_engine (map signed_to_field agg.0) in
    let f1 : WaveField = record f { spectrum = spectrum } in
    let t =
      aggregate-total_of pool size ds (replicate size (pos 0)) [] (omega arith) (omega arith) in
    let once = aggregate-IsMap size ds (replicate size (pos 0)) [] tt in
    elim (Option-cases (mismatch 0 agg.0 (intt f.ntt_engine spectrum))) [
      | inr (i, wrong) ↦
          let bad : batch_failed i ≡ ok tt = rw (synthesize_commutative_batch, wrong) at e in
          absurd (ground arith)
      | inl recovered ↦
          let done : (apply_aggregates agg.1 f1).1 ≡ ok tt =
            batch_ok (apply_aggregates agg.1 f1).1
              (rw (synthesize_commutative_batch, recovered) at e) in
          let r = apply_aggregates-units pool agg.1 f1 once done (omega (arith, t.1)) in
          rw (synthesize_commutative_batch, recovered) (omega (arith, r, t.0))
    ]
  where
    batch_ok : (r : Result (Unit {0}) PoolError) → batch_result r ≡ ok tt → r ≡ ok tt
    batch_ok (ok u) e = refl
    batch_ok (err x) e = absurd (ground arith)
