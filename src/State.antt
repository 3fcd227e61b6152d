-- ===== src/State.antt =====
-- src/state/state_manager.cpp and include/state/state_manager.h: balances, nonces, spent
-- identifiers and histories. Balances are `uint64_t`, so sums wrap. The mutex is left out: every
-- public operation runs to its end under it.
pub mod Views
pub mod History
pub mod Supply
use personalblockchain.Prelude.{
  ℕ, ◌+◌, ◌-◌, ◌%◌, max, Bool, Option, none, some, List, [], ◌∷◌, ◌++◌, Text, is_empty, length, ltb,
  u64_mod, if◌then◌else◌,
}
use personalblockchain.Prelude.Map.{Map, Set, lookup, insert, get_or, contains, add}
use personalblockchain.Transaction.{Transaction, is_coinbase}
use personalblockchain.Block.{Block}

pub record StateManager : Type 0 where
  pub ownership_map : Map Set
  pub spent_tx_ids : Set
  pub balances : Map ℕ
  pub last_nonce_map : Map ℕ
  pub transactions_by_address : Map (List Transaction)

abbrev pub empty_state : StateManager
empty_state = record {
  ownership_map = [];
  spent_tx_ids = [];
  balances = [];
  last_nonce_map = [];
  transactions_by_address = [];
}

-- `transactionsByAddress_[address].push_back(tx)`
unfoldable pub record_transaction :
    Text → Transaction → Map (List Transaction) → Map (List Transaction)
record_transaction address tx m = insert address (get_or address [] m ++ tx ∷ []) m

-- The first `if` of the loop: the receiver is credited.
unfoldable pub credit : Transaction → StateManager → StateManager
unfolding record_transaction
credit tx s = if is_empty tx.to_address then s else record s {
  balances =
      insert tx.to_address ((get_or tx.to_address 0 s.balances + tx.amount) % u64_mod) s.balances;
  transactions_by_address = record_transaction tx.to_address tx s.transactions_by_address;
}

-- A balance that is smaller than the amount becomes 0; an address without a balance stays so.
unfoldable pub debit_balance : Text → ℕ → Map ℕ → Map ℕ
debit_balance address amount m = elim (lookup address m) [
  | none ↦ m
  | some balance ↦ insert address (if ltb amount balance then balance - amount else 0) m
]

-- The second `if`: the sender is debited, unless the transaction is a reward.
unfoldable pub debit : Transaction → StateManager → StateManager
unfolding record_transaction debit_balance
debit tx s =
    let owned = record s {
      ownership_map =
          insert tx.sender_public_key
            (add tx.tx_id (get_or tx.sender_public_key [] s.ownership_map)) s.ownership_map;
      spent_tx_ids = add tx.tx_id s.spent_tx_ids;
    } in
    let charged = record owned {
      balances = debit_balance tx.from_address tx.amount s.balances;
      last_nonce_map =
          insert tx.from_address (max (get_or tx.from_address 0 s.last_nonce_map) tx.nonce)
            s.last_nonce_map;
      transactions_by_address = record_transaction tx.from_address tx s.transactions_by_address;
    } in
    if is_coinbase tx then s else if is_empty tx.from_address then owned else charged

unfoldable pub apply_transaction : StateManager → Transaction → StateManager
unfolding credit debit
apply_transaction s tx = debit tx (credit tx s)

unfoldable pub apply_transactions : StateManager → List Transaction → StateManager
apply_transactions s [] = s
apply_transactions s (tx ∷ txs) = apply_transactions (apply_transaction s tx) txs

unfoldable pub apply_block_state : StateManager → Block → StateManager
apply_block_state s b = apply_transactions s b.transactions

-- `applyBlock` takes the lock and does the same.
unfoldable apply_block : StateManager → Block → StateManager
apply_block s b = apply_block_state s b

unfoldable pub apply_blocks : StateManager → List Block → StateManager
apply_blocks s [] = s
apply_blocks s (b ∷ bs) = apply_blocks (apply_block_state s b) bs

unfoldable pub clear : StateManager → StateManager
clear s = empty_state

unfoldable pub rebuild_state : StateManager → List Block → StateManager
rebuild_state s chain = apply_blocks (clear s) chain

unfoldable pub is_double_spend : StateManager → Text → Bool
is_double_spend s tx_id = contains tx_id s.spent_tx_ids

unfoldable get_transaction_count : StateManager → Text → ℕ
get_transaction_count s public_key = elim (lookup public_key s.ownership_map) [
  | none ↦ 0
  | some owned ↦ length owned
]

unfoldable pub get_all_spent_tx_ids : StateManager → Set
get_all_spent_tx_ids s = s.spent_tx_ids

unfoldable pub get_balance : StateManager → Text → ℕ
get_balance s address = get_or address 0 s.balances

unfoldable pub get_last_nonce : StateManager → Text → ℕ
get_last_nonce s address = get_or address 0 s.last_nonce_map

unfoldable pub get_transactions_for_address : StateManager → Text → List Transaction
get_transactions_for_address s address = get_or address [] s.transactions_by_address
