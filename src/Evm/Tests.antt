-- ===== src/Evm/Tests.antt =====
-- Runs and instances for src/evm/mod.rs, on an EVM that reverts any value above 100.
use fluidic_node.Prelude.{
  ℕ, ◌≡◌, ◌≢◌, refl, true, List, [], ◌∷◌, none, some, if◌then◌else◌, ltb, ok, inl, inr, nat_eq,
}
use fluidic_node.Prelude.Bytes.{Bytes}
use fluidic_node.Evm.Executor.{
  Revm, EvmTransaction, execute, prepare, prepare_parties, seed_balance_nonce, success, revert,
}
use fluidic_node.Evm.Pool.{
  EvmPool, EvmTxStatus, pending, succeeded, failed, invalid_nonce, new, submit, status, nonce,
  settle, process, drain, synthesize, place_tx, sort_txs,
}
use fluidic_node.Evm.Settled.{Event, submitted, run, synthesize_settles}

abbrev small_revm : Revm
small_revm = record {
  Db = ℕ;
  fresh = 0;
  has_account = λ _ _. true;
  set_balance_nonce = λ _ _ _ db. db;
  insert_account_info = λ _ _ _ db. db;
  basic_balance = λ _ _. none;
  transact_commit =
      λ _ env db. (db, if ltb 100 env.value then ok (revert 9 []) else ok (success 21000 []));
}

abbrev digest : Bytes → ℕ
digest b = 7

abbrev created : ℕ → ℕ → ℕ
created sender nonce = sender

abbrev payment : ℕ → ℕ → ℕ → EvmTransaction
payment hash value nonce = record {
  hash = hash;
  sender = 3;
  to = some 4;
  value = value;
  gas_price = 1;
  gas_limit = 21000;
  input = [];
  nonce = nonce;
  raw = [];
  first_seen_at_ns = 5;
}

abbrev early : List (Event small_revm digest created)
early =
    submitted 1 (payment 11 50 1)
    ∷ submitted 1 (payment 10 50 0)
    ∷ submitted 1 (payment 12 50 5)
    ∷ []

abbrev pool : EvmPool small_revm
pool =
    (synthesize small_revm digest created 1 []
      (run small_revm digest created early (new small_revm))).0

pool-statuses :
    pool.statuses ≡ (11, succeeded) ∷ (10, succeeded) ∷ (12, failed (invalid_nonce 2)) ∷ []
unfolding synthesize drain process settle submit sort_txs place_tx execute prepare prepare_parties
    seed_balance_nonce nonce
pool-statuses = refl

-- A transaction refused for its nonce is never run, even when its nonce has become the expected one.
resubmitted : submit small_revm 2 (payment 12 50 5) pool ≡ pool
unfolding synthesize drain process settle submit sort_txs place_tx execute prepare prepare_parties
    seed_balance_nonce nonce
resubmitted = refl

synthesize_settles_example :
    let p =
      (synthesize small_revm digest created 1 []
        (run small_revm digest created early (new small_revm))).0 in
    (p.queue ≡ []) × ((x : EvmTxStatus) × (status small_revm 12 p ≡ some x) × (x ≢ pending))
synthesize_settles_example =
    synthesize_settles small_revm digest created early 1 [] 12 (inr (inr (inl refl)))
