-- ===== src/Blockchain/Invariant/Sealed.antt =====
-- Why a block that `minePendingTransactions` (src/core/blockchain.cpp) seals is the next link of the
-- chain, and how the ledger of a chain grows with it.
use personalblockchain.Prelude.{
  ℕ, ◌≡◌, refl, true, some, List, [], ◌∷◌, ◌++◌, Text, text_eq_iff, text_eq_refl, arith, all,
  all-both,
}
use personalblockchain.Platform.{Platform}
use personalblockchain.Transaction
use personalblockchain.Transaction.{Transaction, is_coinbase, coinbase_key, compute_tx_id}
use personalblockchain.Block.{
  Block, is_valid, has_valid_transactions, new_block, create_genesis, meets_target, calculate_hash,
  compute_merkle_root,
}
use personalblockchain.State.{
  StateManager, empty_state, apply_block_state, apply_blocks, rebuild_state, clear,
}
use personalblockchain.Consensus.Rules.{IsSealed, mine_block-IsSealed}
use personalblockchain.Blockchain.{make_coinbase, is_chain_valid}
use personalblockchain.Blockchain.Validity.{IsLink, is_chain_valid_nonempty}
use personalblockchain.Blockchain.Invariant.Mempool.{is_payment}

apply_blocks-append :
    (s : StateManager) (chain : List Block) (b : Block)
    → apply_blocks s (chain ++ b ∷ []) ≡ apply_block_state (apply_blocks s chain) b
unfolding apply_blocks
apply_blocks-append s [] b = refl
apply_blocks-append s (c ∷ chain) b = apply_blocks-append (apply_block_state s c) chain b

-- The ledger of a chain with one more block is the ledger of the chain after that block.
pub rebuild_state-append :
    (s : StateManager) (chain : List Block) (b : Block)
    → rebuild_state s (chain ++ b ∷ []) ≡ apply_block_state (rebuild_state s chain) b
unfolding rebuild_state clear
rebuild_state-append s chain b = apply_blocks-append empty_state chain b

module _ (P : Platform) where
  is_valid_parts :
      (b : Block)
      → is_valid P b ≡ true
      → (b.hash ≡ calculate_hash P b)
        × (meets_target b.hash b.difficulty ≡ true)
        × (b.merkle_root ≡ compute_merkle_root P b.transactions)
  unfolding is_valid
  is_valid_parts b h =
      let hashed = text_eq_iff b.hash (calculate_hash P b) in
      let rooted = text_eq_iff b.merkle_root (compute_merkle_root P b.transactions) in ground arith

  pub payments_verify :
      (txs : List Transaction)
      → all (is_payment P) txs ≡ true
      → all (Transaction.verify P) txs ≡ true
  payments_verify txs h = all-both _ _ _ (λ tx p q. ground arith) txs h h

  pub make_coinbase-is_coinbase :
      (now : ℕ) (miner : Text) → is_coinbase (make_coinbase P now miner) ≡ true
  unfolding is_coinbase make_coinbase compute_tx_id
  make_coinbase-is_coinbase now miner = text_eq_refl coinbase_key

  pub coinbase_verifies :
      (tx : Transaction) → is_coinbase tx ≡ true → Transaction.verify P tx ≡ true
  unfolding Transaction.verify
  coinbase_verifies tx h = rw h

  -- The next link of a chain is a sealed block over verified transactions.
  pub sealed-IsLink :
      (later height difficulty : ℕ) (tip r : Block) (txs : List Transaction)
      → IsSealed P (new_block P later height tip.hash txs difficulty) r
      → all (Transaction.verify P) txs ≡ true
      → IsLink P height tip r
  unfolding new_block has_valid_transactions
  sealed-IsLink later height difficulty tip r txs s v =
      let parts = is_valid_parts r s.valid in
      record {
        indexed = s.same_index;
        hashed = parts.0;
        linked = s.same_link;
        rooted = parts.2;
        worked = parts.1;
        verified = rw s.same_transactions v;
      }

  -- A mined genesis block is a valid chain by itself.
  pub create_genesis-is_chain_valid :
      (fuel difficulty : ℕ) (genesis : Block)
      → create_genesis P fuel difficulty ≡ some genesis
      → is_chain_valid P (genesis ∷ []) ≡ true
  unfolding create_genesis
  create_genesis-is_chain_valid fuel difficulty genesis e =
      let sealed = mine_block-IsSealed P fuel _ genesis e in
      let parts = is_valid_parts genesis sealed.valid in
      (is_chain_valid_nonempty P genesis []).1
        (record { linked = sealed.same_link; hashed = parts.0; rooted = parts.2 }, λ k a b p q. cc)
