-- ===== src/Consensus/Pow.antt =====
-- include/consensus/pow_engine.h
use personalblockchain.Prelude.{
  ℕ, Bool, true, false, not, ◌||◌, List, Text, text_eq, length, ltb, Option, if◌then◌else◌,
}
use personalblockchain.Platform.{Platform}
use personalblockchain.Block.{
  Block, meets_target, compute_merkle_root, calculate_hash, mine_block, has_valid_transactions,
}
use personalblockchain.Consensus.{Engine}
use personalblockchain.Consensus.Adjuster.{
  Doubles, DifficultyAdjuster, calculate_next_difficulty, validate_block_timestamp,
}

module _ (P : Platform) where
  unfoldable pub validate_block : ℕ → Block → Block → Bool
  validate_block now block previous_block =
      if ltb block.difficulty 1 || ltb 64 block.difficulty
      then false
      else if not (text_eq block.hash (calculate_hash P block))
      then false
      else if not (meets_target block.hash block.difficulty)
      then false
      else if not (text_eq block.previous_hash previous_block.hash)
      then false
      else if not (text_eq block.merkle_root (compute_merkle_root P block.transactions))
      then false
      else if not (validate_block_timestamp P now block previous_block)
      then false
      else if not (has_valid_transactions P block)
      then false
      else true

  unfoldable pub seal_block : ℕ → Block → Text → Option Block
  seal_block fuel block context = mine_block P fuel block

  unfoldable pub should_accept_chain : List Block → List Block → Bool
  should_accept_chain current_chain candidate_chain =
      ltb (length current_chain) (length candidate_chain)

  abbrev pub pow_engine : {F : Type 0} → Doubles F → DifficultyAdjuster F → Engine
  pow_engine D adjuster = record {
    validate_block = validate_block;
    seal_block = seal_block;
    should_accept_chain = should_accept_chain;
    next_difficulty = calculate_next_difficulty D P adjuster;
  }
