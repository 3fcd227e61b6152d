-- ===== src/Block.antt =====
-- src/block/block.cpp and include/block/block.h: the Merkle root, the hash, the nonce search and
-- the checks of one block. The search takes fuel, one unit for each hash that is tried.
pub mod Merkle
pub mod Mining
pub mod Serial
pub mod Repeat
use personalblockchain.Prelude.{
  ℕ, zero, suc, ◌+◌, ◌%◌, Bool, true, false, not, ◌&&◌, Option, none, some, List, [], ◌∷◌, ◌++◌,
  map, Text, codes, decimal, is_empty, text_eq, take, replicate, all, length, ltb, u64_mod,
  if◌then◌else◌,
}
use personalblockchain.Platform.{Platform}
use personalblockchain.Crypto.{sha256}
use personalblockchain.Transaction
use personalblockchain.Transaction.{Transaction, coinbase_key, empty_transaction, current_timestamp}

pub record Block : Type 0 where
  pub index : ℕ
  pub timestamp : Text
  pub previous_hash : Text
  pub transactions : List Transaction
  pub merkle_root : Text
  pub nonce : ℕ
  pub difficulty : ℕ
  pub hash : Text

-- `hash.substr(0, difficulty) == std::string(difficulty, '0')`
unfoldable pub meets_target : Text → ℕ → Bool
meets_target hash difficulty = text_eq (take difficulty hash) (replicate difficulty b'0')

module _ (P : Platform) where
  -- A leaf of the tree: the identifier, or a hash of four fields where it is missing.
  unfoldable pub leaf : Transaction → Text
  leaf tx =
      if is_empty tx.tx_id
      then sha256 P
          (tx.sender_public_key ++ (tx.receiver_public_key ++ (tx.payload ++ tx.timestamp)))
      else tx.tx_id

  -- One round of the loop: neighbours are hashed together, a last odd one with itself.
  unfoldable pub next_level : List Text → List Text
  next_level [] = []
  next_level (a ∷ []) = sha256 P (a ++ a) ∷ []
  next_level (a ∷ b ∷ r) = sha256 P (a ++ b) ∷ next_level r

  -- `while (hashes.size() > 1)`
  unfoldable pub build_tree : ℕ → List Text → List Text
  build_tree zero hashes = hashes
  build_tree (suc fuel) hashes =
      let higher = build_tree fuel (next_level hashes) in
      if ltb 1 (length hashes) then higher else hashes

  -- `hashes[0]`; the loop leaves one hash of one or more.
  unfoldable pub root_of : List Text → Text
  root_of [] = []
  root_of (h ∷ _) = h

  unfoldable pub compute_merkle_root : List Transaction → Text
  compute_merkle_root [] = sha256 P []
  compute_merkle_root (tx ∷ txs) = root_of (build_tree (length (tx ∷ txs)) (map leaf (tx ∷ txs)))

  unfoldable pub calculate_hash : Block → Text
  calculate_hash b = sha256 P (
      decimal b.index
      ++ (b.timestamp
          ++ (b.merkle_root ++ (b.previous_hash ++ (decimal b.nonce ++ decimal b.difficulty)))))

  -- The constructor with arguments: the time is taken and the root computed. The hash is not set.
  unfoldable pub new_block : ℕ → ℕ → Text → List Transaction → ℕ → Block
  new_block now index previous_hash txs difficulty = record {
    index = index;
    timestamp = current_timestamp P now;
    previous_hash = previous_hash;
    transactions = txs;
    merkle_root = compute_merkle_root txs;
    nonce = 0;
    difficulty = difficulty;
    hash = [];
  }

  unfoldable pub search_nonce : ℕ → Block → Option Block
  search_nonce zero b = none
  search_nonce (suc fuel) b =
      let tried = record b { hash = calculate_hash b } in
      let later = search_nonce fuel (record tried { nonce = (b.nonce + 1) % u64_mod }) in
      if meets_target tried.hash b.difficulty then some tried else later

  unfoldable pub mine_block : ℕ → Block → Option Block
  mine_block fuel b =
      search_nonce fuel (record b { merkle_root = compute_merkle_root b.transactions; nonce = 0 })

  unfoldable pub is_valid : Block → Bool
  is_valid b =
      if not (text_eq b.hash (calculate_hash b))
      then false
      else if not (meets_target b.hash b.difficulty)
      then false
      else if not (text_eq b.merkle_root (compute_merkle_root b.transactions))
      then false
      else true

  unfoldable pub has_valid_transactions : Block → Bool
  has_valid_transactions b = all (Transaction.verify P) b.transactions

  unfoldable pub genesis_coinbase : Transaction
  genesis_coinbase = Transaction.compute_tx_id P (record empty_transaction {
    sender_public_key = coinbase_key;
    from_address = coinbase_key;
    to_address = codes "GENESIS";
    amount = 50;
    payload = codes "Genesis Block";
    timestamp = codes "2026-01-01T00:00:00Z";
  })

  unfoldable pub create_genesis : ℕ → ℕ → Option Block
  unfolding genesis_coinbase
  create_genesis fuel difficulty = mine_block fuel (record {
    index = 0;
    timestamp = codes "2026-01-01T00:00:00Z";
    previous_hash = replicate 64 b'0';
    transactions = genesis_coinbase ∷ [];
    merkle_root = compute_merkle_root (genesis_coinbase ∷ []);
    nonce = 0;
    difficulty = difficulty;
    hash = [];
  })
