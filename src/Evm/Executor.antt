-- ===== src/Evm/Executor.antt =====
-- `EvmExecutor`, src/evm/executor.rs, over any revm. Addresses, hashes and 256-bit words are numbers.
use fluidic_node.Prelude.{
  ℕ, Bool, List, [], ◌∷◌, ◌++◌, Option, none, some, if◌then◌else◌, nat_eq, Result, any, nat_beq,
}
use fluidic_node.Prelude.Map.{Map, lookup, insert, unwrap_or}
use fluidic_node.Prelude.Bytes.{Bytes, ascii, to_be_bytes}

-- the transaction environment that the code sets up
pub record TxEnv : Type 0 where
  pub caller : ℕ
  pub gas_limit : ℕ
  pub gas_price : ℕ
  pub transact_to : Option ℕ
  pub value : ℕ
  pub input : Bytes
  pub nonce : Option ℕ

pub record EvmLog : Type 0 where
  pub address : ℕ
  pub topics : List ℕ
  pub contents : Bytes

-- revm's `ExecutionResult`
pub data ExecutionResult : Type 0 where
  success : ℕ → List EvmLog → ExecutionResult
  revert : ℕ → Bytes → ExecutionResult
  halt : ℕ → ℕ → ExecutionResult

-- What the executor takes from revm: the database's accounts, and the run of a transaction at a chain
-- identifier, which returns the database that it committed. Errors are numbers.
pub record Revm : Type 1 where
  pub Db : Type 0
  pub fresh : Db
  pub has_account : ℕ → Db → Bool
  pub set_balance_nonce : ℕ → ℕ → ℕ → Db → Db
  pub insert_account_info : ℕ → ℕ → ℕ → Db → Db
  pub basic_balance : ℕ → Db → Option ℕ
  pub transact_commit : ℕ → TxEnv → Db → Db × Result ExecutionResult ℕ

abbrev pub fluidic_evm_chain_id : ℕ
fluidic_evm_chain_id = 990492

pub record EvmTransaction : Type 0 where
  pub hash : ℕ
  pub sender : ℕ
  pub to : Option ℕ
  pub value : ℕ
  pub gas_price : ℕ
  pub gas_limit : ℕ
  pub input : Bytes
  pub nonce : ℕ
  pub raw : Bytes
  pub first_seen_at_ns : ℕ

abbrev pub evm_address_to_fluidic : (Bytes → ℕ) → ℕ → ℕ
evm_address_to_fluidic blake3 addr = blake3 (ascii "fluidic:evm-account:v1" ++ to_be_bytes 20 addr)

-- `[Some(tx.from), tx.to].into_iter().flatten()`
abbrev pub parties : EvmTransaction → List ℕ
parties tx = tx.sender ∷ elim tx.to [ none ↦ [] | some addr ↦ addr ∷ [] ]

module _ (revm : Revm) (blake3 : Bytes → ℕ) where
  pub record EvmExecutor : Type 0 where
    pub db : revm.Db
    pub touched : List ℕ

  abbrev pub with_db : revm.Db → EvmExecutor
  with_db db = record { db = db; touched = [] }

  -- `touched.insert(addr)`
  abbrev pub touch : ℕ → List ℕ → List ℕ
  touch addr touched = if any (nat_beq addr) touched then touched else addr ∷ touched

  unfoldable pub seed_balance_nonce : ℕ → ℕ → ℕ → EvmExecutor → EvmExecutor
  seed_balance_nonce addr balance nonce x = record {
    db =
        if revm.has_account addr x.db
        then revm.set_balance_nonce addr balance nonce x.db
        else revm.insert_account_info addr balance nonce x.db;
    touched = touch addr x.touched;
  }

  -- the inner `for` of `prepare`
  unfoldable pub prepare_parties : List ℕ → Map ℕ ℕ → Map ℕ ℕ → EvmExecutor → EvmExecutor
  prepare_parties [] balances nonces x = x
  prepare_parties (addr ∷ addrs) balances nonces x =
      let balance : ℕ = unwrap_or (lookup (evm_address_to_fluidic blake3 addr) balances) 0 in
      let nonce : ℕ = unwrap_or (lookup addr nonces) 0 in
      prepare_parties addrs balances nonces (seed_balance_nonce addr balance nonce x)

  unfoldable pub prepare : List EvmTransaction → Map ℕ ℕ → Map ℕ ℕ → EvmExecutor → EvmExecutor
  prepare [] balances nonces x = x
  prepare (tx ∷ txs) balances nonces x =
      prepare txs balances nonces (prepare_parties (parties tx) balances nonces x)

  -- the calls of `touched.insert` in `execute`
  abbrev pub touch_parties : EvmTransaction → List ℕ → List ℕ
  touch_parties tx touched =
      let touched' = touch tx.sender touched in
      elim tx.to [ none ↦ touched' | some addr ↦ touch addr touched' ]

  unfoldable pub execute : EvmTransaction → EvmExecutor → EvmExecutor × Result ExecutionResult ℕ
  execute tx x =
      let (db, r) =
        revm.transact_commit fluidic_evm_chain_id
          (record {
            caller = tx.sender;
            gas_limit = 1000000;
            gas_price = tx.gas_price;
            transact_to = tx.to;
            value = tx.value;
            input = tx.input;
            nonce = some tx.nonce;
          })
          x.db in
      (record { db = db; touched = touch_parties tx x.touched }, r)

  -- The `for` over the touched addresses; a balance beyond 128 bits panics in the code.
  unfoldable pub sync_touched : List ℕ → revm.Db → Map ℕ ℕ → Map ℕ ℕ
  sync_touched [] db balances = balances
  sync_touched (addr ∷ addrs) db balances = sync_touched addrs db (
      insert (evm_address_to_fluidic blake3 addr) (unwrap_or (revm.basic_balance addr db) 0)
        balances)

  unfoldable pub sync_balances_back : EvmExecutor → Map ℕ ℕ → Map ℕ ℕ
  sync_balances_back x balances = sync_touched x.touched x.db balances
