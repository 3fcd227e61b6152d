-- ===== src/Blockchain/Invariant.antt =====
-- The invariant of a node (src/core/blockchain.cpp): the chain is valid, the ledger is the one that
-- the chain gives, and the mempool holds distinct, verified, unspent payments.
mod Mempool
mod Sealed
mod Calls
pub use Mempool.{is_payment, AreDistinct, AreUnspent, IsConsistent}
pub use Calls.{
  construct-IsConsistent, add_transaction-IsConsistent, mine_pending_transactions-IsConsistent,
  accept_block-IsConsistent, replace_chain-IsConsistent, mined-IsLink,
}
