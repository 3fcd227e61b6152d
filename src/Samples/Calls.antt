-- ===== src/Samples/Calls.antt =====
-- The theorems on a node at the one of Samples/Chain.antt.
use personalblockchain.Prelude.{
  ◌≤◌, ◌≡◌, refl, ◌↔◌, ◌⊎◌, true, false, some, [], ◌∷◌, text_eq, decimal, length, last?, arith,
  text_lt,
}
use personalblockchain.Prelude.Map.{lookup, insert}
use personalblockchain.Crypto.{bytes_to_hex, sha256}
use personalblockchain.Transaction.{
  is_coinbase, build_tx_core, derive_address_v2, compute_tx_id, current_timestamp,
}
use personalblockchain.Block.{
  Block, leaf, next_level, build_tree, root_of, compute_merkle_root, calculate_hash, meets_target,
  search_nonce, mine_block, new_block,
}
use personalblockchain.State.{
  record_transaction, credit, debit, apply_transaction, apply_transactions, apply_block_state,
  get_balance,
}
use personalblockchain.State.Views.{balance_after, chain_transactions, fold_transactions}
use personalblockchain.Consensus.Adjuster.{
  calculate_next_difficulty, should_retarget, parse_timestamp, validate_block_timestamp,
}
use personalblockchain.Consensus.Pow
use personalblockchain.Consensus.Pow.{pow_engine}
use personalblockchain.Blockchain.{
  add_transaction, mine_pending_transactions, accept_block, append_mined, replace_chain,
  should_replace, is_chain_valid, is_genesis_valid, are_links_valid, are_blocks_accepted,
  engine_accepts, validate_chain_against_consensus, make_coinbase, apply_to_ledger,
}
use personalblockchain.Blockchain.Validity.{IsChain, is_chain_valid_iff}
use personalblockchain.Blockchain.Decisions.{
  IsAcceptable, IsExtended, IsInstalled, accept_block-IsAcceptable, replace_chain_decides,
}
use personalblockchain.Blockchain.Admission.{IsAdmissible, waiting, add_transaction-IsAdmissible}
use personalblockchain.Blockchain.Invariant.{IsConsistent}
use personalblockchain.Blockchain.History.{
  starts, Reach-IsConsistent, Step-length, Reach-get_balance, adds,
}
use personalblockchain.Blockchain.Sync.{accept_block-mined}
use personalblockchain.Samples.Toy.{toy, whole, adjuster}
use personalblockchain.Samples.Blocks.{unmined}
use personalblockchain.Samples.Texts.{alice_address, signed_payment}
use personalblockchain.Samples.Chain.{
  engine, storage, start, started, mined, mined-start, paid, reached, engine-Seals, engine_longer,
}

Reach-IsConsistent_example : IsConsistent toy paid
Reach-IsConsistent_example = Reach-IsConsistent toy engine storage engine-Seals reached

Reach-get_balance_example :
    get_balance paid.state_manager alice_address
    ≡ fold_transactions (balance_after alice_address) 0 (chain_transactions paid.chain)
Reach-get_balance_example = Reach-get_balance toy engine storage engine-Seals reached alice_address

Step-length_example : length mined.0.chain ≤ length paid.chain
unfolding paid
Step-length_example =
    Step-length toy engine storage engine_longer (adds 105_000_000_000 signed_payment paid refl)

pub start-IsConsistent : IsConsistent toy start
start-IsConsistent =
    Reach-IsConsistent toy engine storage engine-Seals (starts 0 1000 1 tt start started)

pub start_holds : validate_chain_against_consensus toy engine 8_000_000_000 start.chain ≡ true
unfolding validate_chain_against_consensus engine_accepts are_blocks_accepted is_chain_valid
    are_links_valid is_genesis_valid start mined mine_pending_transactions mine_block search_nonce
    compute_merkle_root calculate_hash meets_target leaf next_level build_tree root_of sha256
    bytes_to_hex decimal text_eq apply_block_state apply_transactions apply_transaction credit debit
    record_transaction is_coinbase compute_tx_id build_tx_core lookup insert new_block append_mined
    apply_to_ledger make_coinbase calculate_next_difficulty should_retarget parse_timestamp
    current_timestamp Pow.seal_block text_lt derive_address_v2
start_holds = refl

pub mined_at_one : mined.1.difficulty ≡ 1
unfolding start mined mine_pending_transactions mine_block search_nonce compute_merkle_root
    calculate_hash meets_target leaf next_level build_tree root_of sha256 bytes_to_hex decimal
    text_eq apply_block_state apply_transactions apply_transaction credit debit record_transaction
    is_coinbase compute_tx_id build_tx_core lookup insert new_block append_mined apply_to_ledger
    make_coinbase calculate_next_difficulty should_retarget parse_timestamp current_timestamp
    Pow.seal_block text_lt derive_address_v2
mined_at_one = refl

-- A block in bounds by the clock of the peer.
pub timely :
    (tip : Block)
    → last? start.chain ≡ some tip
    → validate_block_timestamp toy 8_000_000_000 mined.1 tip ≡ true
unfolding validate_block_timestamp start mined mine_pending_transactions mine_block search_nonce
    compute_merkle_root calculate_hash meets_target leaf next_level build_tree root_of sha256
    bytes_to_hex decimal text_eq apply_block_state apply_transactions apply_transaction credit debit
    record_transaction is_coinbase compute_tx_id build_tx_core lookup insert new_block append_mined
    apply_to_ledger make_coinbase calculate_next_difficulty should_retarget parse_timestamp
    current_timestamp Pow.seal_block text_lt derive_address_v2
timely tip e = cc

accept_block-mined_example :
    let result = accept_block toy engine storage 8_000_000_000 start mined.1 in
    (result.1 ≡ true)
    × (result.0.chain ≡ mined.0.chain)
    × (result.0.state_manager ≡ mined.0.state_manager)
accept_block-mined_example =
    accept_block-mined toy whole adjuster storage storage 7_000_000_000 7_000_000_000 1000
      8_000_000_000 start mined.0 start mined.1 alice_address start-IsConsistent start-IsConsistent
      refl mined-start start_holds (omega (arith, mined_at_one)) (omega (arith, mined_at_one))
      timely

accept_block-IsAcceptable_example :
    (IsAcceptable toy engine storage 8_000_000_000 start mined.1
      × ((accept_block toy engine storage 8_000_000_000 start mined.1).1 ≡ true)
      × IsExtended toy engine storage start mined.1
          (accept_block toy engine storage 8_000_000_000 start mined.1).0)
    ⊎ ((¬ IsAcceptable toy engine storage 8_000_000_000 start mined.1)
        × (accept_block toy engine storage 8_000_000_000 start mined.1 ≡ (start, false)))
accept_block-IsAcceptable_example =
    accept_block-IsAcceptable toy engine storage 8_000_000_000 start mined.1

replace_chain_decides_example :
    ((should_replace toy engine storage start mined.0.chain ≡ true)
      × (validate_chain_against_consensus toy engine 8_000_000_000 mined.0.chain ≡ true)
      × ((replace_chain toy engine storage 8_000_000_000 start mined.0.chain).1 ≡ true)
      × IsInstalled toy engine storage start mined.0.chain
          (replace_chain toy engine storage 8_000_000_000 start mined.0.chain).0)
    ⊎ ((¬ (
          (should_replace toy engine storage start mined.0.chain ≡ true)
          × (validate_chain_against_consensus toy engine 8_000_000_000 mined.0.chain ≡ true)))
        × (replace_chain toy engine storage 8_000_000_000 start mined.0.chain ≡ (start, false)))
replace_chain_decides_example =
    replace_chain_decides toy engine storage 8_000_000_000 start mined.0.chain

is_chain_valid_iff_example :
    (is_chain_valid toy (unmined ∷ mined.1 ∷ []) ≡ true) ↔ IsChain toy (unmined ∷ mined.1 ∷ [])
is_chain_valid_iff_example = is_chain_valid_iff toy (unmined ∷ mined.1 ∷ [])

genesis_holds : is_chain_valid toy start.chain ≡ true
unfolding is_chain_valid are_links_valid is_genesis_valid start mined mine_pending_transactions
    mine_block search_nonce compute_merkle_root calculate_hash meets_target leaf next_level
    build_tree root_of sha256 bytes_to_hex decimal text_eq apply_block_state apply_transactions
    apply_transaction credit debit record_transaction is_coinbase compute_tx_id build_tx_core lookup
    insert new_block append_mined apply_to_ledger make_coinbase calculate_next_difficulty
    should_retarget parse_timestamp current_timestamp Pow.seal_block text_lt derive_address_v2
genesis_holds = refl

add_transaction-IsAdmissible_example :
    (IsAdmissible toy 105_000_000_000 mined.0 signed_payment
      × (add_transaction toy 105_000_000_000 mined.0 signed_payment
          ≡ (waiting mined.0 signed_payment, true)))
    ⊎ ((¬ IsAdmissible toy 105_000_000_000 mined.0 signed_payment)
        × (add_transaction toy 105_000_000_000 mined.0 signed_payment ≡ (mined.0, false)))
add_transaction-IsAdmissible_example =
    add_transaction-IsAdmissible toy 105_000_000_000 mined.0 signed_payment
