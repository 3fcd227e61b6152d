-- ===== src/Consensus.antt =====
-- include/consensus/consensus_engine.h: what the blockchain asks of a consensus engine. The clock,
-- in nanoseconds since 1970, and the fuel of a nonce search are arguments of the calls that use them.
pub mod Adjuster
pub mod Retarget
pub mod Pow
pub mod Pos
pub mod Rules
use personalblockchain.Prelude.{ℕ, Bool, Option, List, Text}
use personalblockchain.Block.{Block}

pub record Engine : Type 0 where
  -- The block, and the block before it.
  pub validate_block : ℕ → Block → Block → Bool
  -- Nothing where the fuel runs out. The text is the miner or the validator.
  pub seal_block : ℕ → Block → Text → Option Block
  -- The current chain, and the candidate.
  pub should_accept_chain : List Block → List Block → Bool
  -- The current chain, and the difficulty so far.
  pub next_difficulty : List Block → ℕ → ℕ
