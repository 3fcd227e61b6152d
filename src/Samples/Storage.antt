-- ===== src/Samples/Storage.antt =====
-- The files of a node at concrete inputs.
use personalblockchain.Prelude.{
  false, ◌+◌, ◌%◌, List, map, u64_mod, ◌≡◌, arith, refl, inl, inr, none, some, [], ◌∷◌, Text, codes,
  take, text_eq, text_lt, decimal,
}
use personalblockchain.Prelude.Map.{lookup, insert}
use personalblockchain.Crypto.{bytes_to_hex, sha256}
use personalblockchain.Transaction.{
  is_coinbase, build_tx_core, derive_address_v2, compute_tx_id, current_timestamp,
}
use personalblockchain.Transaction
use personalblockchain.Transaction.Serial
use personalblockchain.Block.Serial as BlockSerial
use personalblockchain.Transaction.Serial.{complete}
use personalblockchain.Block.{
  Block, leaf, next_level, build_tree, root_of, compute_merkle_root, calculate_hash, meets_target,
  search_nonce, mine_block, new_block, genesis_coinbase, create_genesis,
}
use personalblockchain.Block.Serial.{AreComplete, to_json, from_json, from_json-to_json_block}
use personalblockchain.State.{
  record_transaction, credit, debit, apply_transaction, apply_transactions, apply_block_state,
}
use personalblockchain.Consensus.Adjuster.{
  calculate_next_difficulty, should_retarget, parse_timestamp,
}
use personalblockchain.Consensus.Pow
use personalblockchain.Blockchain.{
  is_genesis_valid, are_links_valid, are_blocks_accepted, engine_accepts, Blockchain, construct,
  is_chain_valid, validate_chain_against_consensus, mine_pending_transactions, append_mined,
  apply_to_ledger, make_coinbase,
}
use personalblockchain.Storage.Files.{
  Slot, mostly_works, no_faults, atomic_write, backup, install, recover,
}
use personalblockchain.Storage.Crash.{starts, crashes, Written, Reach-Written}
use personalblockchain.Storage.Manager.{save_chain, Disk, file_storage}
use personalblockchain.Storage.Laws.{IsStored, IsStable, save_chain-IsStored, append_block-IsStored}
use personalblockchain.Samples.Toy.{toy}
use personalblockchain.Samples.Values.{values, values-IsLawful}
use personalblockchain.Samples.Chain.{start, mined}
use personalblockchain.Samples.Calls.{mined_at_one}

abbrev written_once : Slot
written_once = record { file = some (codes "old"); tmp = none; bak = none }

-- The process ends when one byte of the new content is written.
abbrev torn : Slot
torn = record { file = some (codes "old"); tmp = some (codes "n"); bak = none }

Reach-Written_example :
    (c : Text) × ((recover (mostly_works false) torn).file ≡ some c)
    × Written (codes "old") (codes "new" ∷ []) c
unfolding atomic_write backup install
Reach-Written_example = Reach-Written (
    crashes no_faults false 1 (codes "new") torn refl (inr (inr (inl refl)))
      (starts written_once refl))

abbrev empty_disk : Disk
empty_disk = record {
  chain = record { file = none; tmp = none; bak = none };
  state = record { file = none; tmp = none; bak = none };
}

unfoldable pub genesis : Block
genesis = elim start.chain [ [] ↦ mined.1 | b ∷ rest ↦ b ]

start_chain : start.chain ≡ genesis ∷ []
unfolding genesis start construct validate_chain_against_consensus is_chain_valid create_genesis
    mine_block search_nonce compute_merkle_root calculate_hash meets_target leaf next_level
    build_tree root_of sha256 bytes_to_hex decimal text_eq genesis_coinbase apply_block_state
    apply_transactions apply_transaction credit debit record_transaction is_coinbase compute_tx_id
    build_tx_core lookup insert new_block
start_chain = refl

genesis-IsStable : IsStable toy genesis
unfolding genesis start construct validate_chain_against_consensus is_chain_valid create_genesis
    mine_block search_nonce compute_merkle_root calculate_hash meets_target leaf next_level
    build_tree root_of sha256 bytes_to_hex decimal text_eq genesis_coinbase apply_block_state
    apply_transactions apply_transaction credit debit record_transaction is_coinbase compute_tx_id
    build_tx_core lookup insert new_block complete
genesis-IsStable = refl

abbrev saved : Disk
saved = (file_storage values toy).save_chain empty_disk (genesis ∷ [])

saved-IsStored : IsStored values toy saved (genesis ∷ [])
saved-IsStored =
    save_chain-IsStored values toy values-IsLawful empty_disk genesis [] (genesis-IsStable, tt)

abbrev json_text : List Block → Text
json_text chain = values.dump (some 2) (values.array (map (to_json values toy) chain))

-- The process ends when forty bytes of the new file are written.
abbrev torn_append : Slot
torn_append = record saved.chain { tmp = some (take 40 (json_text (genesis ∷ mined.1 ∷ []))) }

mined-IsStable : IsStable toy mined.1
unfolding genesis mined start construct validate_chain_against_consensus engine_accepts
    are_blocks_accepted is_chain_valid are_links_valid is_genesis_valid create_genesis
    mine_pending_transactions mine_block search_nonce compute_merkle_root calculate_hash
    meets_target leaf next_level build_tree root_of sha256 bytes_to_hex decimal text_eq
    genesis_coinbase apply_block_state apply_transactions apply_transaction credit debit
    record_transaction is_coinbase compute_tx_id build_tx_core lookup insert new_block append_mined
    apply_to_ledger make_coinbase calculate_next_difficulty should_retarget parse_timestamp
    current_timestamp Pow.seal_block text_lt derive_address_v2 complete
mined-IsStable = refl

mined_follows :
    (mined.1.index ≡ (genesis.index + 1) % u64_mod) × (mined.1.previous_hash ≡ genesis.hash)
unfolding genesis mined start construct validate_chain_against_consensus engine_accepts
    are_blocks_accepted is_chain_valid are_links_valid is_genesis_valid create_genesis
    mine_pending_transactions mine_block search_nonce compute_merkle_root calculate_hash
    meets_target leaf next_level build_tree root_of sha256 bytes_to_hex decimal text_eq
    genesis_coinbase apply_block_state apply_transactions apply_transaction credit debit
    record_transaction is_coinbase compute_tx_id build_tx_core lookup insert new_block append_mined
    apply_to_ledger make_coinbase calculate_next_difficulty should_retarget parse_timestamp
    current_timestamp Pow.seal_block text_lt derive_address_v2 complete
mined_follows = (refl, refl)

append_block-IsStored_example :
    IsStored values toy
      ((file_storage values toy).append_block saved mined.1)
      (genesis ∷ mined.1 ∷ [])
append_block-IsStored_example =
    append_block-IsStored values toy values-IsLawful saved (genesis ∷ []) genesis mined.1
      saved-IsStored refl mined_follows.0 mined_follows.1 mined-IsStable

pub mined-AreComplete : AreComplete mined.1.transactions
unfolding genesis mined start construct validate_chain_against_consensus engine_accepts
    are_blocks_accepted is_chain_valid are_links_valid is_genesis_valid create_genesis
    mine_pending_transactions mine_block search_nonce compute_merkle_root calculate_hash
    meets_target leaf next_level build_tree root_of sha256 bytes_to_hex decimal text_eq
    genesis_coinbase apply_block_state apply_transactions apply_transaction credit debit
    record_transaction is_coinbase compute_tx_id build_tx_core lookup insert new_block append_mined
    apply_to_ledger make_coinbase calculate_next_difficulty should_retarget parse_timestamp
    current_timestamp Pow.seal_block text_lt derive_address_v2 complete
mined-AreComplete = ((λ e. cc, λ e. cc, λ e. omega arith), tt)

from_json-to_json_block_example : from_json values toy (to_json values toy mined.1) ≡ some mined.1
from_json-to_json_block_example =
    from_json-to_json_block values toy mined.1 values-IsLawful mined-AreComplete
      (omega (arith, mined_at_one))
