-- ===== src/Consensus/Retarget.antt =====
-- When `DifficultyAdjuster::calculateNextDifficulty` (src/consensus/difficulty_adjuster.cpp) changes
-- the difficulty, and by how much.
use personalblockchain.Prelude.{ℕ, ◌-◌, ◌%◌, ◌≤◌, ◌<◌, ◌≡◌, ◌≢◌, List, arith, length}
use personalblockchain.Platform.{Platform}
use personalblockchain.Block.{Block}
use personalblockchain.Consensus.Adjuster.{
  Doubles, DifficultyAdjuster, should_retarget, retarget, calculate_next_difficulty,
}

-- Whatever the doubles do, where the window is not 0 and the bounds are in order, a difficulty that
-- differs from the current one lies between the bounds, and the chain has two blocks or more and is,
-- without its first block, a multiple of the window long.
calculate_next_difficulty_change :
    {F : Type 0} (D : Doubles F) (P : Platform) (a : DifficultyAdjuster F) (chain : List Block)
    (current : ℕ)
    → 0 < a.window_size
    → a.min_difficulty ≤ a.max_difficulty
    → calculate_next_difficulty D P a chain current ≢ current
    → (a.min_difficulty ≤ calculate_next_difficulty D P a chain current)
      × (calculate_next_difficulty D P a chain current ≤ a.max_difficulty)
      × (1 < length chain)
      × ((length chain - 1) % a.window_size ≡ 0)
unfolding calculate_next_difficulty should_retarget retarget
calculate_next_difficulty_change D P a chain current window bounds changed = ground arith
