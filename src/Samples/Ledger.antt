-- ===== src/Samples/Ledger.antt =====
-- The ledger at concrete chains.
use personalblockchain.Prelude.{
  ap, length, ℕ, text_lt, ◌+◌, ◌<◌, ◌≡◌, refl, inl, inr, List, [], ◌∷◌, ◌++◌, Text, codes, text_eq,
  arith,
}
use personalblockchain.Transaction.{Transaction, coinbase_key, empty_transaction, is_coinbase}
use personalblockchain.Block.{Block}
use personalblockchain.State.{
  empty_state, record_transaction, credit, debit_balance, debit, apply_transaction,
  apply_transactions, rebuild_state, get_balance,
}
use personalblockchain.State.Views.{
  balance_after, chain_transactions, fold_transactions, get_balance-rebuild_state,
}
use personalblockchain.State.Supply.{
  IsCovered, supply, minted, supply-apply_transactions, supply-overspent,
}
use personalblockchain.Prelude.Map.{lookup, insert, contains, add}
use personalblockchain.Samples.Blocks.{unmined}

abbrev reward : Transaction
reward = record empty_transaction {
  tx_id = codes "r";
  sender_public_key = coinbase_key;
  from_address = coinbase_key;
  to_address = codes "alice";
  amount = 50;
}

abbrev pay : Text → Text → ℕ → ℕ → Transaction
pay from to amount nonce = record empty_transaction {
  tx_id = codes "p" ++ from;
  sender_public_key = from;
  from_address = from;
  to_address = to;
  amount = amount;
  nonce = nonce;
}

abbrev first : Block
first = record unmined { transactions = reward ∷ pay (codes "alice") (codes "bob") 20 1 ∷ [] }

abbrev second : Block
second = record unmined { transactions = pay (codes "bob") (codes "bob") 5 1 ∷ [] }

abbrev ledger_chain : List Block
ledger_chain = first ∷ second ∷ []

get_balance-rebuild_state_example :
    get_balance (rebuild_state empty_state ledger_chain) (codes "alice")
    ≡ fold_transactions (balance_after (codes "alice")) 0 (chain_transactions ledger_chain)
get_balance-rebuild_state_example =
    get_balance-rebuild_state empty_state ledger_chain (codes "alice")

alice_balance : get_balance (rebuild_state empty_state ledger_chain) (codes "alice") ≡ 30
unfolding text_eq is_coinbase
alice_balance = rw get_balance-rebuild_state refl

covered : IsCovered empty_state first.transactions
unfolding apply_transaction credit debit debit_balance record_transaction get_balance is_coinbase
    text_eq lookup insert add contains text_lt
covered = (omega arith, inl refl, (omega arith, inr (refl, refl, omega arith), tt))

supply-apply_transactions_example :
    supply (apply_transactions empty_state first.transactions) ≡ 0 + minted first.transactions
supply-apply_transactions_example =
    supply-apply_transactions empty_state first.transactions tt covered

-- Money out of nothing: 7 are paid from an empty ledger.
supply-overspent_example :
    0 < supply (apply_transaction empty_state (pay (codes "eve") (codes "carol") 7 1))
unfolding credit record_transaction get_balance is_coinbase text_eq lookup insert
supply-overspent_example =
    supply-overspent empty_state (pay (codes "eve") (codes "carol") 7 1) tt refl refl
      (λ e. omega (arith, ap length e)) (omega arith) (omega arith)
