-- ===== src/Samples/Chain.antt =====
-- A node, mined on and copied, without storage and on the proof-of-work engine.
use personalblockchain.Prelude.{
  ap, ◌<◌, ◌≡◌, refl, ◌∙◌, true, false, Option, none, some, List, [], ◌∷◌, text_eq, text_lt,
  decimal, length, arith,
}
use personalblockchain.Prelude.Map.{lookup, insert, contains}
use personalblockchain.Crypto
use personalblockchain.Crypto.{hex_to_bytes, read_pair, bytes_to_hex, sha256}
use personalblockchain.Transaction
use personalblockchain.Transaction.{
  Transaction, is_coinbase, build_tx_core, derive_address_v2, derive_address_legacy, compute_tx_id,
  current_timestamp, is_expired, age_seconds,
}
use personalblockchain.Block.{
  Block, leaf, next_level, build_tree, root_of, compute_merkle_root, calculate_hash, meets_target,
  search_nonce, mine_block, new_block, genesis_coinbase, create_genesis,
}
use personalblockchain.State.{
  empty_state, record_transaction, credit, debit, apply_transaction, apply_transactions,
  apply_block_state, is_double_spend, get_balance, get_last_nonce,
}
use personalblockchain.Consensus.{Engine}
use personalblockchain.Consensus.Adjuster.{
  calculate_next_difficulty, should_retarget, parse_timestamp,
}
use personalblockchain.Consensus.Pow
use personalblockchain.Consensus.Pow.{pow_engine}
use personalblockchain.Blockchain.{
  Blockchain, Storage, is_chain_valid, validate_chain_against_consensus, construct,
  mine_pending_transactions, append_mined, add_transaction, enqueue, can_afford, pending_outgoing,
  pending_incoming, expected_nonce, highest_nonce, is_in_mempool, apply_to_ledger, make_coinbase,
}
use personalblockchain.Samples.Toy.{toy, whole, adjuster}
use personalblockchain.Samples.Blocks.{unmined}
use personalblockchain.Samples.Texts.{alice_address, signed_payment}
use personalblockchain.Consensus.Rules.{Seals, pow_engine-Seals}
use personalblockchain.Blockchain.History.{Reach, starts, steps, mines, adds}

abbrev pub engine : Option Engine
engine = some (pow_engine toy whole adjuster)

abbrev pub storage : Option (Storage (Unit {0}))
storage = none

unfoldable blank : Blockchain (Unit {0})
blank = record {
  difficulty = 0;
  chain = [];
  mempool = [];
  state_manager = empty_state;
  on_block_added = false;
  on_block_accepted = false;
  on_transaction_added = false;
  chain_update_version = 0;
  disk = tt;
  events = [];
}

-- A node at difficulty 1, at time 0.
unfoldable pub start : Blockchain (Unit {0})
unfolding blank construct validate_chain_against_consensus is_chain_valid create_genesis mine_block
    search_nonce compute_merkle_root calculate_hash meets_target leaf next_level build_tree root_of
    sha256 bytes_to_hex decimal text_eq genesis_coinbase apply_block_state apply_transactions
    apply_transaction credit debit record_transaction is_coinbase compute_tx_id build_tx_core lookup
    insert new_block
start = elim (construct toy engine storage 0 1000 1 tt) [ none ↦ blank | some bc ↦ bc ]

pub started : construct toy engine storage 0 1000 1 tt ≡ some start
unfolding start construct validate_chain_against_consensus is_chain_valid create_genesis mine_block
    search_nonce compute_merkle_root calculate_hash meets_target leaf next_level build_tree root_of
    sha256 bytes_to_hex decimal text_eq genesis_coinbase apply_block_state apply_transactions
    apply_transaction credit debit record_transaction is_coinbase compute_tx_id build_tx_core lookup
    insert new_block
started = refl

-- The block that the node mines for alice at 7 seconds, and the node after it.
unfoldable pub mined : Blockchain (Unit {0}) × Block
unfolding start mine_pending_transactions mine_block search_nonce compute_merkle_root calculate_hash
    meets_target leaf next_level build_tree root_of sha256 bytes_to_hex decimal text_eq
    apply_block_state apply_transactions apply_transaction credit debit record_transaction
    is_coinbase compute_tx_id build_tx_core lookup insert new_block append_mined apply_to_ledger
    make_coinbase calculate_next_difficulty should_retarget parse_timestamp current_timestamp
    Pow.seal_block text_lt derive_address_v2
mined =
    elim (mine_pending_transactions toy engine storage 7_000_000_000 7_000_000_000 1000 start
      alice_address) [ none ↦ (start, unmined) | some r ↦ r ]

pub mined-start :
    mine_pending_transactions toy engine storage 7_000_000_000 7_000_000_000 1000 start
      alice_address
    ≡ some mined
unfolding start mined mine_pending_transactions mine_block search_nonce compute_merkle_root
    calculate_hash meets_target leaf next_level build_tree root_of sha256 bytes_to_hex decimal
    text_eq apply_block_state apply_transactions apply_transaction credit debit record_transaction
    is_coinbase compute_tx_id build_tx_core lookup insert new_block append_mined apply_to_ledger
    make_coinbase calculate_next_difficulty should_retarget parse_timestamp current_timestamp
    Pow.seal_block text_lt derive_address_v2
mined-start = refl

-- The node once alice's payment has arrived.
unfoldable pub paid : Blockchain (Unit {0})
paid = (add_transaction toy 105_000_000_000 mined.0 signed_payment).0

-- Its mempool holds the payment: none of the guards refused it.
payment_pending : paid.mempool ≡ signed_payment ∷ []
unfolding paid mined start mine_pending_transactions signed_payment add_transaction enqueue
    Transaction.verify Crypto.verify Crypto.sign Transaction.sign hex_to_bytes read_pair can_afford
    pending_outgoing pending_incoming expected_nonce highest_nonce get_balance get_last_nonce
    is_expired age_seconds is_double_spend contains is_in_mempool mine_block search_nonce
    compute_merkle_root calculate_hash meets_target leaf next_level build_tree root_of sha256
    bytes_to_hex decimal text_eq apply_block_state apply_transactions apply_transaction credit debit
    record_transaction is_coinbase compute_tx_id build_tx_core lookup insert new_block append_mined
    apply_to_ledger make_coinbase calculate_next_difficulty should_retarget parse_timestamp
    current_timestamp Pow.seal_block text_lt derive_address_v2
payment_pending = refl

pub reached : Reach toy engine storage paid
unfolding paid
reached =
    steps
      (steps (starts 0 1000 1 tt start started)
        (mines 7_000_000_000 7_000_000_000 1000 alice_address mined.0 mined.1 mined-start))
      (adds 105_000_000_000 signed_payment paid refl)

pub engine-Seals : (e : Engine) → engine ≡ some e → Seals toy e
engine-Seals e h =
    let same : pow_engine toy whole adjuster ≡ e = cc in
    rw (← same) (pow_engine-Seals toy whole adjuster)

pub engine_longer :
    (e : Engine) (old new : List Block)
    → engine ≡ some e
    → e.should_accept_chain old new ≡ true
    → length old < length new
unfolding Pow.should_accept_chain
engine_longer e old new h accepted =
    let same : pow_engine toy whole adjuster ≡ e = cc in
    let longer : Pow.should_accept_chain toy old new ≡ true =
      ap (λ (x : Engine). x.should_accept_chain old new) same ∙ accepted in
    ground arith
