-- ===== src/Samples/Blocks.antt =====
-- Merkle trees, mining and difficulty at concrete inputs.
use personalblockchain.Prelude.{
  ℕ, zero, suc, ◌<◌, ◌≡◌, refl, true, false, some, List, [], ◌∷◌, ◌++◌, Text, codes, arith, text_eq,
  decimal,
}
use personalblockchain.Crypto.{bytes_to_hex, sha256}
use personalblockchain.Transaction.{Transaction, empty_transaction}
use personalblockchain.Block.{
  Block, leaf, next_level, build_tree, root_of, compute_merkle_root, calculate_hash, meets_target,
  search_nonce, mine_block, is_valid, has_valid_transactions,
}
use personalblockchain.Block.Repeat.{is_valid_repeat}
use personalblockchain.Block.Mining.{sealed_at, succeeds_at, mine_block-first}
use personalblockchain.Samples.Toy.{toy, whole, adjuster}
use personalblockchain.Prelude.Int.{◌+ℤ◌, ◌-ℤ◌}
use personalblockchain.Consensus.Adjuster.{
  clamp_ratio, calculate_next_difficulty, should_retarget, retarget, parse_timestamp,
}

-- Transactions that differ in their identifiers.
abbrev pub named : Text → Transaction
named id = record empty_transaction { tx_id = id }

-- A block to be mined, at difficulty 2.
abbrev pub unmined : Block
unmined = record {
  index = 1;
  timestamp = codes "5";
  previous_hash = codes "00";
  transactions = named (codes "a") ∷ named (codes "b") ∷ named (codes "c") ∷ [];
  merkle_root = [];
  nonce = 0;
  difficulty = 2;
  hash = [];
}

is_valid_repeat_example :
    let once = record unmined {
      transactions = (named (codes "a") ∷ named (codes "b") ∷ []) ++ named (codes "c") ∷ [];
    } in
    let twice = record unmined {
      transactions =
          (named (codes "a") ∷ named (codes "b") ∷ [])
          ++ named (codes "c") ∷ named (codes "c") ∷ [];
    } in
    (is_valid toy twice ≡ is_valid toy once)
    × (has_valid_transactions toy twice ≡ has_valid_transactions toy once)
is_valid_repeat_example =
    is_valid_repeat toy 1 unmined (named (codes "a") ∷ named (codes "b") ∷ []) (named (codes "c"))
      (omega arith) (omega arith)

-- The nonces 0, 1 and 2 miss the target, 3 meets it.
missed : (j : ℕ) → j < 3 → succeeds_at toy unmined j ≡ false
unfolding compute_merkle_root calculate_hash meets_target leaf next_level build_tree root_of sha256
    bytes_to_hex decimal text_eq
missed zero h = refl
missed (suc zero) h = refl
missed (suc (suc zero)) h = refl
missed (suc (suc (suc j))) h = absurd (omega arith)

met : succeeds_at toy unmined 3 ≡ true
unfolding compute_merkle_root calculate_hash meets_target leaf next_level build_tree root_of sha256
    bytes_to_hex decimal text_eq
met = refl

mine_block-first_example : mine_block toy 100 unmined ≡ some (sealed_at toy unmined 3)
mine_block-first_example = mine_block-first toy 100 3 unmined (omega arith) (omega arith) missed met

mined_unmined : mine_block toy 100 unmined ≡ some (sealed_at toy unmined 3)
unfolding mine_block search_nonce compute_merkle_root calculate_hash meets_target leaf next_level
    build_tree root_of sha256 bytes_to_hex decimal text_eq
mined_unmined = refl

-- Three blocks, the last 5 seconds behind the first, where 20 seconds were asked for.
abbrev at_time : Text → Block
at_time t = record unmined { timestamp = t }

abbrev fast_chain : List Block
fast_chain = at_time (codes "100") ∷ at_time (codes "103") ∷ at_time (codes "105") ∷ []

retargets : calculate_next_difficulty whole toy adjuster fast_chain 2 ≡ 8
unfolding calculate_next_difficulty should_retarget retarget clamp_ratio parse_timestamp ◌-ℤ◌ ◌+ℤ◌
retargets = refl
