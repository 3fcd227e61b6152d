-- ===== src/Blockchain/Defs.antt =====
-- src/core/blockchain.cpp and include/core/blockchain.h, call by call. Clock readings, in
-- nanoseconds since 1970, and the fuel of a nonce search are arguments.
use personalblockchain.Prelude.{
  ℕ, suc, ◌+◌, ◌%◌, max, Bool, true, false, not, ◌&&◌, Option, none, some, List, [], ◌∷◌, ◌++◌,
  Text, text_eq, replicate, any, ◌==◌, u64_mod, if◌then◌else◌,
}
use personalblockchain.Prelude.Map.{Set}
use personalblockchain.Platform.{Platform}
use personalblockchain.Transaction.{Transaction}
use personalblockchain.Block.{
  Block, meets_target, compute_merkle_root, calculate_hash, has_valid_transactions,
}
use personalblockchain.State.{StateManager}
use personalblockchain.Consensus.{Engine}

-- What the class asks of `LevelDBManager`, over the contents of a disk. It ignores whether a write
-- succeeded. Exceptions that leave a call of the storage are left out.
pub record Storage (D : Type 0) : Type 0 where
  pub has_persisted_chain : D → Bool
  pub load_chain : D → List Block
  pub save_chain : D → List Block → D
  pub append_block : D → Block → D
  pub save_state : D → Set → D

-- A call of one of the three callbacks.
pub data Event : Type 0 where
  block_added block_accepted : Block → Event
  transaction_added : Transaction → Event

pub record Blockchain (D : Type 0) : Type 0 where
  pub difficulty : ℕ
  pub chain : List Block
  pub mempool : List Transaction
  pub state_manager : StateManager
  pub on_block_added : Bool
  pub on_block_accepted : Bool
  pub on_transaction_added : Bool
  pub chain_update_version : ℕ
  pub disk : D
  pub events : List Event

abbrev pub block_reward : ℕ
block_reward = 50

abbrev pub max_txs_per_block : ℕ
max_txs_per_block = 100

-- `if (callback) callback(...)`
abbrev pub notify : Bool → Event → List Event → List Event
notify set event events = if set then events ++ event ∷ [] else events

unfoldable pub is_in_mempool : List Transaction → Text → Bool
is_in_mempool mempool tx_id = any (λ tx. text_eq tx.tx_id tx_id) mempool

-- The sums over the mempool are `uint64_t`.
unfoldable pub pending_outgoing : Text → ℕ → List Transaction → ℕ
pending_outgoing address sum [] = sum
pending_outgoing address sum (p ∷ ps) =
    pending_outgoing address
      (if text_eq p.from_address address then (sum + p.amount) % u64_mod else sum) ps

unfoldable pub pending_incoming : Text → ℕ → List Transaction → ℕ
pending_incoming address sum [] = sum
pending_incoming address sum (p ∷ ps) =
    pending_incoming address
      (if text_eq p.to_address address then (sum + p.amount) % u64_mod else sum) ps

unfoldable pub highest_nonce : Text → ℕ → List Transaction → ℕ
highest_nonce address seen [] = seen
highest_nonce address seen (p ∷ ps) =
    highest_nonce address (if text_eq p.from_address address then max seen p.nonce else seen) ps

module _ (P : Platform) where
  -- The conditions of the static `isChainValid`, in its order.
  unfoldable pub is_genesis_valid : Block → Bool
  is_genesis_valid genesis =
      text_eq genesis.previous_hash (replicate 64 b'0')
      && text_eq genesis.hash (calculate_hash P genesis)
      && text_eq genesis.merkle_root (compute_merkle_root P genesis.transactions)

  unfoldable pub is_link_valid : ℕ → Block → Block → Bool
  is_link_valid i previous current =
      (current.index == i)
      && text_eq current.hash (calculate_hash P current)
      && text_eq current.previous_hash previous.hash
      && text_eq current.merkle_root (compute_merkle_root P current.transactions)
      && meets_target current.hash current.difficulty
      && has_valid_transactions P current

  -- The loop from index `i`, behind the block `previous`.
  unfoldable pub are_links_valid : ℕ → Block → List Block → Bool
  are_links_valid i previous [] = true
  are_links_valid i previous (current ∷ rest) =
      is_link_valid i previous current && are_links_valid (suc i) current rest

  unfoldable pub is_chain_valid : List Block → Bool
  is_chain_valid [] = false
  is_chain_valid (genesis ∷ rest) = is_genesis_valid genesis && are_links_valid 1 genesis rest

  module _ (engine : Option Engine) where
    unfoldable pub are_blocks_accepted : Engine → ℕ → Block → List Block → Bool
    are_blocks_accepted e now previous [] = true
    are_blocks_accepted e now previous (current ∷ rest) =
        e.validate_block now current previous && are_blocks_accepted e now current rest

    unfoldable pub engine_accepts : ℕ → List Block → Bool
    engine_accepts now [] = true
    engine_accepts now (genesis ∷ rest) = elim engine [
      | none ↦ true
      | some e ↦ are_blocks_accepted e now genesis rest
    ]

    unfoldable pub validate_chain_against_consensus : ℕ → List Block → Bool
    validate_chain_against_consensus now chain =
        if not (is_chain_valid chain) then false else engine_accepts now chain
