-- ===== src/Evm/Pool.antt =====
-- `EvmPool`, src/evm/mod.rs. Latencies, floats for display, are left out; the clock that stamps a
-- transaction is an argument, and so is the address of a created contract (ethers_core).
use fluidic_node.Prelude.{
  ℕ, suc, Bool, true, false, ◌&&◌, ◌||◌, List, [], ◌∷◌, ◌++◌, Option, none, some, if◌then◌else◌,
  ltb, leb, nat_beq, not, add_u64, nat_eq, Result, ok, err,
}
use fluidic_node.Prelude.Map.{Map, lookup, insert, contains_key, unwrap_or}
use fluidic_node.Prelude.Bytes.{Bytes, ascii, to_le_bytes}
use fluidic_node.Evm.Executor.{
  Revm, EvmTransaction, EvmExecutor, ExecutionResult, EvmLog, success, revert, halt, with_db,
  prepare, execute, sync_balances_back,
}

pub data Failure : Type 0 where
  invalid_nonce : ℕ → Failure
  reverted : Bytes → Failure
  halted failing : ℕ → Failure

pub data EvmTxStatus : Type 0 where
  pending succeeded : EvmTxStatus
  failed : Failure → EvmTxStatus

pub record EvmReceipt : Type 0 where
  pub transaction_hash : ℕ
  pub transaction_index : ℕ
  pub block_number : ℕ
  pub block_hash : ℕ
  pub sender : ℕ
  pub to : Option ℕ
  pub contract_address : Option ℕ
  pub gas_used : ℕ
  pub cumulative_gas_used : ℕ
  pub effective_gas_price : ℕ
  pub status : ℕ
  pub logs : List EvmLog

abbrev pub block_hash_for : (Bytes → ℕ) → ℕ → ℕ
block_hash_for blake3 tick = blake3 (ascii "fluidic:block:" ++ to_le_bytes 8 tick)

-- the order of `sort_by`: the sender, then the nonce
abbrev pub not_after : EvmTransaction → EvmTransaction → Bool
not_after a b = ltb a.sender b.sender || (nat_beq a.sender b.sender && leb a.nonce b.nonce)

unfoldable pub place_tx : EvmTransaction → List EvmTransaction → List EvmTransaction
place_tx tx [] = tx ∷ []
place_tx tx (x ∷ xs) = if not_after tx x then tx ∷ x ∷ xs else x ∷ place_tx tx xs

unfoldable pub sort_txs : List EvmTransaction → List EvmTransaction
sort_txs [] = []
sort_txs (tx ∷ txs) = place_tx tx (sort_txs txs)

module _ (revm : Revm) where
  pub record EvmPool : Type 0 where
    pub queue : List EvmTransaction
    pub statuses : Map ℕ EvmTxStatus
    pub nonces : Map ℕ ℕ
    pub db : revm.Db
    pub receipts : Map ℕ EvmReceipt
    pub transactions : Map ℕ EvmTransaction

  abbrev pub new : EvmPool
  new = record {
    queue = [];
    statuses = [];
    nonces = [];
    db = revm.fresh;
    receipts = [];
    transactions = [];
  }

  -- `submit`, which never fails
  unfoldable pub submit : ℕ → EvmTransaction → EvmPool → EvmPool
  submit now_ns tx p =
      if contains_key tx.hash p.statuses
      then p
      else let tx' : EvmTransaction =
          if nat_beq tx.first_seen_at_ns 0 then record tx { first_seen_at_ns = now_ns } else tx in
        record p {
          statuses = insert tx.hash pending p.statuses;
          transactions = insert tx.hash tx' p.transactions;
          queue = p.queue ++ (tx' ∷ []);
        }

  unfoldable pub status : ℕ → EvmPool → Option EvmTxStatus
  status hash p = lookup hash p.statuses

  abbrev pub receipt : ℕ → EvmPool → Option EvmReceipt
  receipt hash p = lookup hash p.receipts

  abbrev pub transaction : ℕ → EvmPool → Option EvmTransaction
  transaction hash p = lookup hash p.transactions

  unfoldable pub nonce : ℕ → EvmPool → ℕ
  nonce address p = unwrap_or (lookup address p.nonces) 0

  -- what the `match` on the execution's result leaves: the status it stores, if any, the gas used, the
  -- receipt's status and its logs
  abbrev pub outcome : Result ExecutionResult ℕ → Option EvmTxStatus × ℕ × ℕ × List EvmLog
  outcome (err e) = (some (failed (failing e)), 0, 0, [])
  outcome (ok (success gas logs)) = (none, gas, 1, logs)
  outcome (ok (revert gas output)) = (some (failed (reverted output)), gas, 0, [])
  outcome (ok (halt gas reason)) = (some (failed (halted reason)), gas, 0, [])

  module _ (blake3 : Bytes → ℕ) (contract_address : ℕ → ℕ → ℕ) where
    -- what the loop of `synthesize` changes
    pub record Round : Type 0 where
      pub pool : EvmPool
      pub executor : EvmExecutor revm blake3
      pub applied_hashes : List ℕ
      pub cumulative_gas : ℕ

    -- The loop's body for a transaction whose nonce is the expected one.
    unfoldable pub settle : ℕ → ℕ → EvmTransaction → Round → Round
    settle tick idx tx s =
        let (executor, result) = execute revm blake3 tx s.executor in
        let (stored, gas_used, code, logs) = outcome result in
        let gas : ℕ = add_u64 s.cumulative_gas gas_used in
        let done : Bool = nat_beq code 1 in
        let p = s.pool in
        record {
          executor = executor;
          applied_hashes = if done then s.applied_hashes ++ (tx.hash ∷ []) else s.applied_hashes;
          cumulative_gas = gas;
          pool = record p {
            nonces =
                if done
                then insert tx.sender (add_u64 (nonce tx.sender p) 1) p.nonces
                else p.nonces;
            statuses = insert tx.hash (elim stored [ none ↦ succeeded | some x ↦ x ]) p.statuses;
            receipts =
                insert tx.hash
                  (record {
                    transaction_hash = tx.hash;
                    transaction_index = idx;
                    block_number = tick;
                    block_hash = block_hash_for blake3 tick;
                    sender = tx.sender;
                    to = tx.to;
                    contract_address =
                        if done
                        then elim tx.to [
                          | none ↦ some (contract_address tx.sender tx.nonce)
                          | some addr ↦ none
                        ]
                        else none;
                    gas_used = gas_used;
                    cumulative_gas_used = gas;
                    effective_gas_price = tx.gas_price;
                    status = code;
                    logs = logs;
                  })
                  p.receipts;
          };
        }

    -- The loop's body.
    unfoldable pub process : ℕ → ℕ → EvmTransaction → Round → Round
    process tick idx tx s =
        let expected : ℕ = nonce tx.sender s.pool in
        if not (nat_beq tx.nonce expected)
        then record s {
          pool = record s.pool {
            statuses = insert tx.hash (failed (invalid_nonce expected)) s.pool.statuses;
          };
        }
        else settle tick idx tx s

    -- `for (idx, tx) in self.pending.drain(..).enumerate()`
    unfoldable pub drain : ℕ → ℕ → List EvmTransaction → Round → Round
    drain tick idx [] s = s
    drain tick idx (tx ∷ txs) s = drain tick (suc idx) txs (process tick idx tx s)

    -- The balances, the pool and the hashes of the applied transactions, whose number is `applied`.
    unfoldable pub synthesize : ℕ → Map ℕ ℕ → EvmPool → EvmPool × Map ℕ ℕ × List ℕ
    synthesize tick balances p =
        let txs = sort_txs p.queue in
        let executor = prepare revm blake3 txs balances p.nonces (with_db revm blake3 p.db) in
        let s = drain tick 0 txs (record {
          pool = record p { queue = [] };
          executor = executor;
          applied_hashes = [];
          cumulative_gas = 0;
        }) in
        (
          record s.pool { db = s.executor.db },
          sync_balances_back revm blake3 s.executor balances,
          s.applied_hashes,
        )

  -- the filter of `logs`: the first topics wanted against the first topics of a log
  abbrev pub topics_match : List (Option ℕ) → List ℕ → Bool
  topics_match [] topics = true
  topics_match (none ∷ wanted) [] = topics_match wanted []
  topics_match (none ∷ wanted) (t ∷ topics) = topics_match wanted topics
  topics_match (some w ∷ wanted) [] = false
  topics_match (some w ∷ wanted) (t ∷ topics) = nat_beq t w && topics_match wanted topics

  abbrev pub log_matches : Option ℕ → List (Option ℕ) → EvmLog → Bool
  log_matches address wanted log =
      elim address [ none ↦ true | some a ↦ nat_beq log.address a ]
      && topics_match wanted log.topics

  unfoldable pub matching : Option ℕ → List (Option ℕ) → List EvmLog → List EvmLog
  matching address wanted [] = []
  matching address wanted (log ∷ logs) =
      let rest = matching address wanted logs in
      if log_matches address wanted log then log ∷ rest else rest

  unfoldable pub receipt_logs : Map ℕ EvmReceipt → List EvmLog
  receipt_logs [] = []
  receipt_logs ((h, r) ∷ m) = r.logs ++ receipt_logs m

  unfoldable pub logs : Option ℕ → List (Option ℕ) → EvmPool → List EvmLog
  logs address wanted p = matching address wanted (receipt_logs p.receipts)
