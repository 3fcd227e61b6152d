-- ===== src/Consensus/Pos.antt =====
-- include/consensus/pos_engine.h, which the source calls a skeleton.
use personalblockchain.Prelude.{
  ℕ, Bool, true, false, not, List, Text, text_eq, length, ltb, Option, some, if◌then◌else◌,
}
use personalblockchain.Platform.{Platform}
use personalblockchain.Block.{Block, compute_merkle_root, calculate_hash}
use personalblockchain.Consensus.{Engine}

module _ (P : Platform) where
  unfoldable pub validate_block : ℕ → Block → Block → Bool
  validate_block now block previous_block =
      if not (text_eq block.previous_hash previous_block.hash)
      then false
      else if not (text_eq block.merkle_root (compute_merkle_root P block.transactions))
      then false
      else true

  -- No nonce is searched for.
  unfoldable pub seal_block : ℕ → Block → Text → Option Block
  seal_block fuel block validator_key =
      let prepared = record block {
        merkle_root = compute_merkle_root P block.transactions;
        nonce = 0;
      } in
      some (record prepared { hash = calculate_hash P prepared })

  unfoldable pub should_accept_chain : List Block → List Block → Bool
  should_accept_chain current_chain candidate_chain =
      ltb (length current_chain) (length candidate_chain)

  unfoldable pub next_difficulty : List Block → ℕ → ℕ
  next_difficulty chain current_difficulty = 0

  abbrev pub pos_engine : Engine
  pos_engine = record {
    validate_block = validate_block;
    seal_block = seal_block;
    should_accept_chain = should_accept_chain;
    next_difficulty = next_difficulty;
  }
