-- ===== src/Evm/Settled.antt =====
-- The transactions of the pool of src/evm/mod.rs and their statuses over any calls.
use fluidic_node.Prelude.{
  ℕ, suc, ◌≡◌, ◌≢◌, ◌⊎◌, ◌∙◌, sym, ap, inl, inr, refl, true, List, [], ◌∷◌, ◌++◌, none, some,
  if◌then◌else◌, nat_beq, nat_eq, Result, ok, err, arith, Mem, Bool-cases, Option-cases,
  none_ne_some,
}
use fluidic_node.Prelude.Map.{Map, lookup, insert, contains_key, lookup-insert}
use fluidic_node.Prelude.Bytes.{Bytes}
use fluidic_node.Evm.Executor.{
  Revm, EvmTransaction, execute, prepare, with_db, ExecutionResult, success, revert, halt,
}
use fluidic_node.Evm.Pool.{
  EvmPool, EvmTxStatus, pending, succeeded, failed, invalid_nonce, Round, not_after, place_tx,
  sort_txs, new, submit, status, outcome, settle, process, drain, synthesize, nonce,
}

abbrev pub hashes : List EvmTransaction → List ℕ
hashes [] = []
hashes (tx ∷ txs) = tx.hash ∷ hashes txs

Mem-hashes_append :
    (h : ℕ) (txs : List EvmTransaction) (tx : EvmTransaction)
    → (Mem h (hashes txs) ⊎ (h ≡ tx.hash))
    → Mem h (hashes (txs ++ (tx ∷ [])))
Mem-hashes_append h [] tx (inl m) = absurd m
Mem-hashes_append h [] tx (inr e) = inl e
Mem-hashes_append h (x ∷ xs) tx (inl (inl e)) = inl e
Mem-hashes_append h (x ∷ xs) tx (inl (inr m)) = inr (Mem-hashes_append h xs tx (inl m))
Mem-hashes_append h (x ∷ xs) tx (inr e) = inr (Mem-hashes_append h xs tx (inr e))

Mem-place_tx :
    (h : ℕ) (tx : EvmTransaction) (txs : List EvmTransaction)
    → ((h ≡ tx.hash) ⊎ Mem h (hashes txs))
    → Mem h (hashes (place_tx tx txs))
unfolding place_tx
Mem-place_tx h tx [] m = m
Mem-place_tx h tx (x ∷ xs) m = elim (Bool-cases (not_after tx x)) [
  | inl first ↦ rw first m
  | inr later ↦ rw later (behind m (Mem-place_tx h tx xs))
]
  where
    behind :
        ((h ≡ tx.hash) ⊎ ((h ≡ x.hash) ⊎ Mem h (hashes xs)))
        → (((h ≡ tx.hash) ⊎ Mem h (hashes xs)) → Mem h (hashes (place_tx tx xs)))
        → ((h ≡ x.hash) ⊎ Mem h (hashes (place_tx tx xs)))
    behind (inl e) go = inr (go (inl e))
    behind (inr (inl e)) go = inl e
    behind (inr (inr m)) go = inr (go (inr m))

Mem-sort_txs :
    (h : ℕ) (txs : List EvmTransaction) → Mem h (hashes txs) → Mem h (hashes (sort_txs txs))
unfolding sort_txs
Mem-sort_txs h [] m = m
Mem-sort_txs h (tx ∷ txs) (inl e) = Mem-place_tx h tx (sort_txs txs) (inl e)
Mem-sort_txs h (tx ∷ txs) (inr m) = Mem-place_tx h tx (sort_txs txs) (inr (Mem-sort_txs h txs m))

-- the hashes that are pending in a map are listed
abbrev Listed : Map ℕ EvmTxStatus → List ℕ → Type 0
Listed statuses hs = (h : ℕ) → lookup h statuses ≡ some pending → Mem h hs

-- hashes stay known
abbrev Kept : Map ℕ EvmTxStatus → Map ℕ EvmTxStatus → Type 0
Kept before after = (h : ℕ) → contains_key h before ≡ true → contains_key h after ≡ true

-- One settled hash goes into the map.
Listed-insert :
    (g : ℕ) (x : EvmTxStatus) (m : Map ℕ EvmTxStatus) (hs : List ℕ)
    → x ≢ pending
    → Listed m (g ∷ hs)
    → Listed (insert g x m) hs
Listed-insert g x m hs settled l h e =
    let read = lookup-insert h g x m in
    elim (Bool-cases (nat_beq g h)) [
      | inl own ↦
          let now : lookup h (insert g x m) ≡ some x = read ∙ rw own refl in
          absurd (settled (ground arith))
      | inr other ↦
          let old : lookup h (insert g x m) ≡ lookup h m = read ∙ rw other refl in
          elim (l h (sym old ∙ e)) [ inl same ↦ absurd (ground arith) | inr m ↦ m ]
    ]

Kept-insert : (g : ℕ) (x : EvmTxStatus) (m : Map ℕ EvmTxStatus) → Kept m (insert g x m)
Kept-insert g x m h k = ground (arith, lookup-insert h g x m)

module _ (revm : Revm) (blake3 : Bytes → ℕ) (contract_address : ℕ → ℕ → ℕ) where
  -- A processed transaction gets a status that is not `Pending`.
  outcome_settled :
      (r : Result ExecutionResult ℕ)
      → elim (outcome revm r).0 [ none ↦ succeeded | some x ↦ x ] ≢ pending
  outcome_settled (err e) p = ground arith
  outcome_settled (ok (success gas logs)) p = ground arith
  outcome_settled (ok (revert gas out)) p = ground arith
  outcome_settled (ok (halt gas reason)) p = ground arith

  process-statuses :
      (tick idx : ℕ) (tx : EvmTransaction) (s : Round revm blake3 contract_address)
      → (x : EvmTxStatus) × (x ≢ pending)
        × ((process revm blake3 contract_address tick idx tx s).pool.statuses
            ≡ insert tx.hash x s.pool.statuses)
        × ((process revm blake3 contract_address tick idx tx s).pool.queue ≡ s.pool.queue)
  unfolding process settle
  process-statuses tick idx tx s =
      elim (Bool-cases (nat_beq tx.nonce (nonce revm tx.sender s.pool))) [
        | inr other ↦ (
          failed (invalid_nonce (nonce revm tx.sender s.pool)),
          λ e. ground arith,
          rw other refl,
          rw other refl,
        )
        | inl expected ↦
            let r = (execute revm blake3 tx s.executor).1 in
            (
              elim (outcome revm r).0 [ none ↦ succeeded | some x ↦ x ],
              outcome_settled r,
              rw expected refl,
              rw expected refl,
            )
      ]

  drain-statuses :
      (tick idx : ℕ) (txs : List EvmTransaction) (s : Round revm blake3 contract_address)
      → Listed s.pool.statuses (hashes txs)
      → let s' = drain revm blake3 contract_address tick idx txs s in
        Listed s'.pool.statuses []
        × Kept s.pool.statuses s'.pool.statuses
        × (s'.pool.queue ≡ s.pool.queue)
  unfolding drain
  drain-statuses tick idx [] s l = (l, λ h k. k, refl)
  drain-statuses tick idx (tx ∷ txs) s l =
      let (x, settled, stored, queue) = process-statuses tick idx tx s in
      let s1 = process revm blake3 contract_address tick idx tx s in
      let l1 : Listed s1.pool.statuses (hashes txs) =
        rw stored (Listed-insert tx.hash x s.pool.statuses (hashes txs) settled l) in
      let k1 : Kept s.pool.statuses s1.pool.statuses =
        rw stored (Kept-insert tx.hash x s.pool.statuses) in
      let (l2, k2, q2) = drain-statuses tick (suc idx) txs s1 l1 in
      (l2, λ h k. k2 h (k1 h k), q2 ∙ queue)

  -- the hashes that are pending stand in the queue
  abbrev pub IsQueued : EvmPool revm → Type 0
  IsQueued p = Listed p.statuses (hashes p.queue)

  submit-IsQueued :
      (now : ℕ) (tx : EvmTransaction) (p : EvmPool revm)
      → IsQueued p
      → IsQueued (submit revm now tx p)
        × Kept p.statuses (submit revm now tx p).statuses
        × (contains_key tx.hash (submit revm now tx p).statuses ≡ true)
  unfolding submit
  submit-IsQueued now tx p q = elim (Bool-cases (contains_key tx.hash p.statuses)) [
    | inl known ↦ rw known (q, λ h k. k, known)
    | inr new_one ↦
        let tx' : EvmTransaction =
          if nat_beq tx.first_seen_at_ns 0 then record tx { first_seen_at_ns = now } else tx in
        let same : tx'.hash ≡ tx.hash = ground arith in
        let statuses' : Map ℕ EvmTxStatus = insert tx.hash pending p.statuses in
        let listed : Listed statuses' (hashes (p.queue ++ (tx' ∷ []))) = λ h e.
          elim (Bool-cases (nat_beq tx.hash h)) [
            | inl own ↦ Mem-hashes_append h p.queue tx' (inr (ground arith))
            | inr other ↦
                let old : lookup h statuses' ≡ lookup h p.statuses =
                  lookup-insert h tx.hash pending p.statuses ∙ rw other refl in
                Mem-hashes_append h p.queue tx' (inl (q h (sym old ∙ e)))
          ] in
        rw new_one (
          listed,
          Kept-insert tx.hash pending p.statuses,
          ground (arith, lookup-insert tx.hash tx.hash pending p.statuses),
        )
  ]

  synthesize-settled :
      (tick : ℕ) (balances : Map ℕ ℕ) (p : EvmPool revm)
      → IsQueued p
      → let p' = (synthesize revm blake3 contract_address tick balances p).0 in
        Listed p'.statuses [] × Kept p.statuses p'.statuses × (p'.queue ≡ [])
  unfolding synthesize
  synthesize-settled tick balances p q =
      let txs = sort_txs p.queue in
      drain-statuses tick 0 txs
        (record {
          pool = record p { queue = [] };
          executor = prepare revm blake3 txs balances p.nonces (with_db revm blake3 p.db);
          applied_hashes = [];
          cumulative_gas = 0;
        })
        (λ h e. Mem-sort_txs h p.queue (q h e))

  pub data Event : Type 0 where
    submitted : ℕ → EvmTransaction → Event
    synthesized : ℕ → Map ℕ ℕ → Event

  abbrev pub handle : Event → EvmPool revm → EvmPool revm
  handle (submitted now tx) p = submit revm now tx p
  handle (synthesized tick balances) p = (synthesize revm blake3 contract_address tick balances p).0

  abbrev pub run : List Event → EvmPool revm → EvmPool revm
  run [] p = p
  run (e ∷ es) p = run es (handle e p)

  -- the transactions that a run submits
  abbrev pub Submits : List Event → ℕ → Type 0
  Submits [] h = ⊥
  Submits (submitted now tx ∷ es) h = (h ≡ tx.hash) ⊎ Submits es h
  Submits (synthesized tick balances ∷ es) h = Submits es h

  handle-IsQueued :
      (e : Event) (p : EvmPool revm)
      → IsQueued p
      → IsQueued (handle e p) × Kept p.statuses (handle e p).statuses
  handle-IsQueued (submitted now tx) p q = let (a, b, _) = submit-IsQueued now tx p q in (a, b)
  handle-IsQueued (synthesized tick balances) p q =
      let (a, b, c) = synthesize-settled tick balances p q in (λ h e. absurd (a h e), b)

  run-IsQueued :
      (es : List Event) (p : EvmPool revm)
      → IsQueued p
      → IsQueued (run es p)
        × Kept p.statuses (run es p).statuses
        × ((h : ℕ) → Submits es h → contains_key h (run es p).statuses ≡ true)
  run-IsQueued [] p q = (q, λ h k. k, λ h m. absurd m)
  run-IsQueued (e ∷ es) p q =
      let (q1, k1) = handle-IsQueued e p q in
      let (q2, k2, m2) = run-IsQueued es (handle e p) q1 in
      (q2, λ h k. k2 h (k1 h k), known e p q k2 m2)
    where
      known :
          (e : Event) (p : EvmPool revm)
          → IsQueued p
          → Kept (handle e p).statuses (run es (handle e p)).statuses
          → ((h : ℕ) → Submits es h → contains_key h (run es (handle e p)).statuses ≡ true)
          → (h : ℕ) → Submits (e ∷ es) h
          → contains_key h (run es (handle e p)).statuses ≡ true
      known (submitted now tx) p q k m h (inl own) = k h (rw own (submit-IsQueued now tx p q).2)
      known (submitted now tx) p q k m h (inr later) = m h later
      known (synthesized tick balances) p q k m h later = m h later

  -- After any submissions and syntheses on a new pool and one more synthesis, the queue is empty and
  -- every transaction that was submitted has a status, which is not pending.
  pub synthesize_settles :
      (es : List Event) (tick : ℕ) (balances : Map ℕ ℕ) (h : ℕ)
      → Submits es h
      → let p = (synthesize revm blake3 contract_address tick balances (run es (new revm))).0 in
        (p.queue ≡ []) × ((x : EvmTxStatus) × (status revm h p ≡ some x) × (x ≢ pending))
  unfolding status
  synthesize_settles es tick balances h m =
      let (q, _, known) = run-IsQueued es (new revm) (λ h e. absurd (none_ne_some e)) in
      let (none_pending, kept, empty) = synthesize-settled tick balances (run es (new revm)) q in
      let p = (synthesize revm blake3 contract_address tick balances (run es (new revm))).0 in
      let here : contains_key h p.statuses ≡ true = kept h (known h m) in
      elim (Option-cases (lookup h p.statuses)) [
        | inl gone ↦ absurd (ground arith)
        | inr (x, there) ↦ (empty, (x, there, λ e. none_pending h (there ∙ ap some e)))
      ]
