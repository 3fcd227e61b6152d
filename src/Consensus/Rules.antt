-- ===== src/Consensus/Rules.antt =====
-- What a sealed block is, for any engine of include/consensus, and that both engines make one.
use personalblockchain.Prelude.{ℕ, ◌≡◌, ap, true, some, List, [], Text, text_eq_refl}
use personalblockchain.Platform.{Platform}
use personalblockchain.Block.{
  Block, meets_target, compute_merkle_root, calculate_hash, mine_block, is_valid,
}
use personalblockchain.Block.Mining.{mine_block-is_valid}
use personalblockchain.Consensus.{Engine}
use personalblockchain.Consensus.Adjuster.{Doubles, DifficultyAdjuster}
use personalblockchain.Consensus.Pow
use personalblockchain.Consensus.Pos

-- The second block is the first with the root, nonce and hash set so that it passes `is_valid`.
pub record IsSealed (P : Platform) (b r : Block) : Type 0 where
  pub same_index : r.index ≡ b.index
  pub same_timestamp : r.timestamp ≡ b.timestamp
  pub same_link : r.previous_hash ≡ b.previous_hash
  pub same_transactions : r.transactions ≡ b.transactions
  pub same_difficulty : r.difficulty ≡ b.difficulty
  pub valid : is_valid P r ≡ true

-- The contract of an engine: it seals what it is given at the difficulty that it asks for.
pub record Seals (P : Platform) (e : Engine) : Type 0 where
  pub seals :
      (fuel : ℕ) (b r : Block) (key : Text) (chain : List Block) (current : ℕ)
      → b.difficulty ≡ e.next_difficulty chain current
      → e.seal_block fuel b key ≡ some r
      → IsSealed P b r

pub mine_block-IsSealed :
    (P : Platform) (fuel : ℕ) (b r : Block) → mine_block P fuel b ≡ some r → IsSealed P b r
mine_block-IsSealed P fuel b r e =
    let (m, same, valid) = mine_block-is_valid P fuel b r e in
    record {
      same_index = ap (λ (x : Block). x.index) same;
      same_timestamp = ap (λ (x : Block). x.timestamp) same;
      same_link = ap (λ (x : Block). x.previous_hash) same;
      same_transactions = ap (λ (x : Block). x.transactions) same;
      same_difficulty = ap (λ (x : Block). x.difficulty) same;
      valid = valid;
    }

-- The proof-of-work engine keeps the contract of an engine: what it returns for a block at the
-- difficulty that it asks for is that block, with the root, the nonce and the hash set so that it
-- passes `is_valid`.
pub pow_engine-Seals :
    (P : Platform) {F : Type 0} (D : Doubles F) (a : DifficultyAdjuster F)
    → Seals P (Pow.pow_engine P D a)
unfolding Pow.seal_block
pow_engine-Seals P D a = record {
  seals = λ fuel b r key chain current asked e. mine_block-IsSealed P fuel b r e;
}

pos-IsSealed :
    (P : Platform) (fuel : ℕ) (b r : Block) (key : Text)
    → b.difficulty ≡ 0
    → Pos.seal_block P fuel b key ≡ some r
    → IsSealed P b r
unfolding Pos.seal_block is_valid meets_target calculate_hash
pos-IsSealed P fuel b r key zero_difficulty e =
    let root = compute_merkle_root P b.transactions in
    let prepared : Block = record b { merkle_root = root; nonce = 0 } in
    let made : r ≡ record prepared { hash = calculate_hash P prepared } = cc in
    record {
      same_index = ap (λ (x : Block). x.index) made;
      same_timestamp = ap (λ (x : Block). x.timestamp) made;
      same_link = ap (λ (x : Block). x.previous_hash) made;
      same_transactions = ap (λ (x : Block). x.transactions) made;
      same_difficulty = ap (λ (x : Block). x.difficulty) made;
      valid = rw (made, zero_difficulty, text_eq_refl, text_eq_refl [], text_eq_refl root);
    }

-- The proof-of-stake skeleton keeps the same contract: what it returns for a block at the
-- difficulty that it asks for, 0, is that block, with the root, the nonce and the hash set so that
-- it passes `is_valid`.
pos_engine-Seals : (P : Platform) → Seals P (Pos.pos_engine P)
unfolding Pos.next_difficulty
pos_engine-Seals P = record {
  seals = λ fuel b r key chain current asked e. pos-IsSealed P fuel b r key asked e;
}
