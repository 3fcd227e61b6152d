-- ===== src/Blockchain/Calls.antt =====
-- src/core/blockchain.cpp and include/core/blockchain.h, the calls of a node, one by one.
use personalblockchain.Prelude.{
  map, ℕ, ◌+◌, ◌-◌, ◌%◌, min, Bool, true, false, not, ◌||◌, Option, none, some, List, [], ◌∷◌, ◌++◌,
  Text, codes, text_eq, take, drop, length, any, keep, last?, ltb, leb, ◌==◌, u64_mod,
  if◌then◌else◌,
}
use personalblockchain.Prelude.Map.{contains}
use personalblockchain.Platform.{Platform}
use personalblockchain.Transaction
use personalblockchain.Transaction.{
  Transaction, is_coinbase, coinbase_key, empty_transaction, derive_address_v2, compute_tx_id,
  current_timestamp, is_expired,
}
use personalblockchain.Block.{Block, new_block, mine_block, create_genesis}
use personalblockchain.State.{
  empty_state, apply_block_state, rebuild_state, is_double_spend, get_all_spent_tx_ids, get_balance,
  get_last_nonce,
}
use personalblockchain.Consensus.{Engine}
use personalblockchain.Blockchain.Defs.{
  Storage, Event, block_added, block_accepted, transaction_added, Blockchain, block_reward,
  max_txs_per_block, notify, is_in_mempool, pending_outgoing, pending_incoming, highest_nonce,
  validate_chain_against_consensus,
}

-- The reward of a block that is mined here.
unfoldable pub make_coinbase : Platform → ℕ → Text → Transaction
make_coinbase P now miner_address = compute_tx_id P (record empty_transaction {
  sender_public_key = coinbase_key;
  from_address = coinbase_key;
  to_address = miner_address;
  amount = block_reward;
  payload = codes "Mining Reward";
  timestamp = current_timestamp P now;
})

-- The test of `remove_if` in `acceptBlock`.
abbrev pub confirms : Block → Transaction → Bool
confirms block pending = any (λ tx. text_eq tx.tx_id pending.tx_id) block.transactions

module _ {D : Type 0} where
  -- The private `applyBlockState` of the class: the ledger and the version.
  unfoldable pub apply_to_ledger : Block → Blockchain D → Blockchain D
  apply_to_ledger block bc = record bc {
    state_manager = apply_block_state bc.state_manager block;
    chain_update_version = (bc.chain_update_version + 1) % u64_mod;
  }

  -- What the sender of a transaction can spend is what the ledger and the mempool give it.
  unfoldable pub can_afford : Blockchain D → Transaction → Bool
  can_afford bc tx =
      let confirmed = get_balance bc.state_manager tx.from_address in
      let outgoing = pending_outgoing tx.from_address 0 bc.mempool in
      let incoming = pending_incoming tx.from_address 0 bc.mempool in
      let available = (confirmed + incoming) % u64_mod in
      not (ltb available outgoing || ltb (available - outgoing) tx.amount)

  unfoldable pub expected_nonce : Blockchain D → Text → ℕ
  expected_nonce bc address =
      (highest_nonce address (get_last_nonce bc.state_manager address) bc.mempool + 1) % u64_mod

  unfoldable pub enqueue : Blockchain D → Transaction → Blockchain D
  enqueue bc tx = record bc {
    mempool = bc.mempool ++ tx ∷ [];
    chain_update_version = (bc.chain_update_version + 1) % u64_mod;
    events = notify bc.on_transaction_added (transaction_added tx) bc.events;
  }

  unfoldable pub add_transaction : Platform → ℕ → Blockchain D → Transaction → Blockchain D × Bool
  add_transaction P now bc tx =
      if is_coinbase tx
      then (bc, false)
      else if not (Transaction.verify P tx)
      then (bc, false)
      else if tx.amount == 0
      then (bc, false)
      else if not (text_eq tx.from_address (derive_address_v2 P tx.sender_public_key))
      then (bc, false)
      else if not (can_afford bc tx)
      then (bc, false)
      else if not (tx.nonce == expected_nonce bc tx.from_address)
      then (bc, false)
      else if is_expired P now tx 300
      then (bc, false)
      else if is_double_spend bc.state_manager tx.tx_id
      then (bc, false)
      else if is_in_mempool bc.mempool tx.tx_id
      then (bc, false)
      else (enqueue bc tx, true)

module _ {D : Type 0} (P : Platform) (engine : Option Engine) (storage : Option (Storage D)) where
  abbrev pub save_chain : List Block → D → D
  save_chain chain disk = elim storage [ none ↦ disk | some s ↦ s.save_chain disk chain ]

  abbrev pub append_block : Block → D → D
  append_block block disk = elim storage [ none ↦ disk | some s ↦ s.append_block disk block ]

  abbrev pub next_difficulty : Blockchain D → ℕ
  next_difficulty bc = elim engine [
    | none ↦ bc.difficulty
    | some e ↦ e.next_difficulty bc.chain bc.difficulty
  ]

  abbrev pub seal : ℕ → Block → Text → Option Block
  seal fuel block miner_address = elim engine [
    | none ↦ mine_block P fuel block
    | some e ↦ e.seal_block fuel block miner_address
  ]

  -- A node before its constructor has chosen a chain.
  abbrev pub fresh : ℕ → D → Blockchain D
  fresh difficulty disk = record {
    difficulty = difficulty;
    chain = [];
    mempool = [];
    state_manager = empty_state;
    on_block_added = false;
    on_block_accepted = false;
    on_transaction_added = false;
    chain_update_version = 0;
    disk = disk;
    events = [];
  }

  abbrev pub load_chain : D → List Block
  load_chain disk = elim storage [
    | none ↦ []
    | some s ↦ if s.has_persisted_chain disk then s.load_chain disk else []
  ]

  -- The constructor: the chain on the disk if it is there and valid, else a new genesis block;
  -- nothing where the fuel runs out.
  unfoldable pub construct : ℕ → ℕ → ℕ → D → Option (Blockchain D)
  construct now fuel difficulty disk =
      let start = fresh difficulty disk in
      let loaded = load_chain disk in
      if validate_chain_against_consensus P engine now loaded
      then some (record start {
        chain = loaded;
        state_manager = rebuild_state start.state_manager loaded;
        chain_update_version = 1;
      })
      else elim (create_genesis P fuel difficulty) [
        | none ↦ none
        | some genesis ↦ some (record start {
          chain = genesis ∷ [];
          state_manager = apply_block_state start.state_manager genesis;
          chain_update_version = 1;
          disk = save_chain (genesis ∷ []) disk;
        })
      ]

  -- The transactions of the next block: the reward, and the front of the mempool.
  abbrev pub block_transactions : ℕ → Blockchain D → Text → List Transaction
  block_transactions now bc miner_address =
      make_coinbase P now miner_address
      ∷ take (min (length bc.mempool) max_txs_per_block) bc.mempool

  -- What happens once a block is sealed.
  unfoldable pub append_mined : Blockchain D → Block → Blockchain D
  append_mined bc block =
      let tx_count = min (length bc.mempool) max_txs_per_block in
      let applied = apply_to_ledger block (record bc { chain = bc.chain ++ block ∷ [] }) in
      record applied {
        mempool = if leb (length bc.mempool) tx_count then [] else drop tx_count bc.mempool;
        disk = append_block block bc.disk;
        events =
            notify bc.on_block_accepted (block_accepted block)
              (notify bc.on_block_added (block_added block) bc.events);
      }

  -- Nothing where the fuel runs out, or where the chain is empty, whose last block the source reads
  -- unchecked. The clock is read for the reward and once more for the block.
  unfoldable pub mine_pending_transactions :
      ℕ → ℕ → ℕ → Blockchain D → Text → Option (Blockchain D × Block)
  mine_pending_transactions now later fuel bc miner_address =
      let retargeted = record bc { difficulty = next_difficulty bc } in
      elim (last? bc.chain) [
        | none ↦ none
        | some tip ↦
            let candidate =
              new_block P later (length bc.chain) tip.hash (block_transactions now bc miner_address)
                (next_difficulty bc) in
            elim (seal fuel candidate miner_address) [
              | none ↦ none
              | some block ↦ some (append_mined retargeted block, block)
            ]
      ]

  unfoldable pub append_accepted : Blockchain D → Block → Blockchain D
  append_accepted bc block =
      let applied = apply_to_ledger block (record bc { chain = bc.chain ++ block ∷ [] }) in
      record applied {
        mempool = keep (λ tx. not (confirms block tx)) bc.mempool;
        disk = append_block block bc.disk;
        events = notify bc.on_block_accepted (block_accepted block) bc.events;
      }

  unfoldable pub accept_block : ℕ → Blockchain D → Block → Blockchain D × Bool
  accept_block now bc block = elim (last? bc.chain) [
    | none ↦ (bc, false)
    | some tip ↦
        if not (block.index == length bc.chain) || not (text_eq block.previous_hash tip.hash)
        then (bc, false)
        else if not (validate_chain_against_consensus P engine now (bc.chain ++ block ∷ []))
        then (bc, false)
        else (append_accepted bc block, true)
  ]

  abbrev pub should_replace : Blockchain D → List Block → Bool
  should_replace bc new_chain = elim engine [
    | none ↦ not (leb (length new_chain) (length bc.chain))
    | some e ↦ e.should_accept_chain bc.chain new_chain
  ]

  abbrev notify_tip : Blockchain D → List Block → List Event
  notify_tip bc chain = elim (last? chain) [
    | none ↦ bc.events
    | some tip ↦ notify bc.on_block_accepted (block_accepted tip) bc.events
  ]

  unfoldable pub install_chain : Blockchain D → List Block → Blockchain D
  install_chain bc new_chain =
      let state = rebuild_state bc.state_manager new_chain in
      record bc {
        chain = new_chain;
        state_manager = state;
        chain_update_version = (bc.chain_update_version + 1) % u64_mod;
        mempool = keep (λ tx. not (contains tx.tx_id (get_all_spent_tx_ids state))) bc.mempool;
        disk = save_chain new_chain bc.disk;
        events = notify_tip bc new_chain;
      }

  unfoldable pub replace_chain : ℕ → Blockchain D → List Block → Blockchain D × Bool
  replace_chain now bc new_chain =
      if not (should_replace bc new_chain)
      then (bc, false)
      else if not (validate_chain_against_consensus P engine now new_chain)
      then (bc, false)
      else (install_chain bc new_chain, true)

  unfoldable pub persist_chain : Blockchain D → Blockchain D
  persist_chain bc = elim storage [
    | none ↦ bc
    | some s ↦ record bc {
      disk = s.save_state (s.save_chain bc.disk bc.chain) (get_all_spent_tx_ids bc.state_manager);
    }
  ]

  unfoldable pub persist_block : Blockchain D → Block → Blockchain D
  persist_block bc block = record bc { disk = append_block block bc.disk }

  -- JSON values and `Block::fromJson`, which throws on some, are parameters.
  unfoldable pub chain_from_json :
      {J : Type 0} → (J → Block) → ℕ → Blockchain D → List J → Blockchain D
  chain_from_json from_json now bc blocks = (replace_chain now bc (map from_json blocks)).0

module _ {D : Type 0} where
  -- Whether the callback that is set can be called.
  unfoldable pub set_on_block_added : Blockchain D → Bool → Blockchain D
  set_on_block_added bc callback = record bc { on_block_added = callback }

  unfoldable pub set_on_block_accepted : Blockchain D → Bool → Blockchain D
  set_on_block_accepted bc callback = record bc { on_block_accepted = callback }

  unfoldable pub set_on_transaction_added : Blockchain D → Bool → Blockchain D
  set_on_transaction_added bc callback = record bc { on_transaction_added = callback }

  unfoldable pub get_latest_block : Blockchain D → Option Block
  get_latest_block bc = last? bc.chain

  unfoldable pub get_chain_length : Blockchain D → ℕ
  get_chain_length bc = length bc.chain

  unfoldable pub get_balance_for_address : Blockchain D → Text → ℕ
  get_balance_for_address bc address = get_balance bc.state_manager address

  unfoldable pub get_last_nonce_for_address : Blockchain D → Text → ℕ
  get_last_nonce_for_address bc address = get_last_nonce bc.state_manager address
