-- ===== src/Blockchain/Validity.antt =====
-- What the static `isChainValid` (src/core/blockchain.cpp) accepts, block by block, and how it
-- passes from a chain to the chain with one more block.
use personalblockchain.Prelude.{
  ℕ, zero, suc, ◌+◌, ◌≡◌, refl, sym, ◌∙◌, ◌↔◌, true, ◌&&◌, some, List, [], ◌∷◌, ◌++◌, text_eq_iff,
  arith, length, replicate, get_elem?, last?, last_from,
}
use personalblockchain.Platform.{Platform}
use personalblockchain.Block.{
  Block, meets_target, compute_merkle_root, calculate_hash, has_valid_transactions,
}
use personalblockchain.Blockchain.Defs.{
  is_genesis_valid, is_link_valid, are_links_valid, is_chain_valid,
}

-- The first block of a chain: it links to 64 zeros, its hash and its root are its own.
pub record IsGenesis (P : Platform) (b : Block) : Type 0 where
  pub linked : b.previous_hash ≡ replicate 64 b'0'
  pub hashed : b.hash ≡ calculate_hash P b
  pub rooted : b.merkle_root ≡ compute_merkle_root P b.transactions

-- The block at height `i` behind another.
pub record IsLink (P : Platform) (i : ℕ) (previous b : Block) : Type 0 where
  pub indexed : b.index ≡ i
  pub hashed : b.hash ≡ calculate_hash P b
  pub linked : b.previous_hash ≡ previous.hash
  pub rooted : b.merkle_root ≡ compute_merkle_root P b.transactions
  pub worked : meets_target b.hash b.difficulty ≡ true
  pub verified : has_valid_transactions P b ≡ true

module _ (P : Platform) where
  is_genesis_valid_iff : (b : Block) → (is_genesis_valid P b ≡ true) ↔ IsGenesis P b
  unfolding is_genesis_valid
  is_genesis_valid_iff b =
      let linked = text_eq_iff b.previous_hash (replicate 64 b'0') in
      let hashed = text_eq_iff b.hash (calculate_hash P b) in
      let rooted = text_eq_iff b.merkle_root (compute_merkle_root P b.transactions) in
      (λ h. ground arith, λ h. ground arith)

  pub is_link_valid_iff :
      (i : ℕ) (previous b : Block) → (is_link_valid P i previous b ≡ true) ↔ IsLink P i previous b
  unfolding is_link_valid
  is_link_valid_iff i previous b =
      let hashed = text_eq_iff b.hash (calculate_hash P b) in
      let linked = text_eq_iff b.previous_hash previous.hash in
      let rooted = text_eq_iff b.merkle_root (compute_merkle_root P b.transactions) in
      (λ h. ground arith, λ h. ground arith)

  -- Every two neighbours of the list that `previous` begins are linked, the first at height `i`.
  abbrev AreLinked : ℕ → Block → List Block → Type 0
  AreLinked i previous rest =
      (k : ℕ) (a b : Block)
      → get_elem? (previous ∷ rest) k ≡ some a
      → get_elem? rest k ≡ some b
      → IsLink P (i + k) a b

  are_links_valid_sound :
      (i : ℕ) (previous : Block) (rest : List Block)
      → are_links_valid P i previous rest ≡ true
      → AreLinked i previous rest
  unfolding are_links_valid
  are_links_valid_sound i previous [] h k a b p q = cc
  are_links_valid_sound i previous (c ∷ rest) h zero a b p q =
      let e : i + 0 ≡ i = omega arith in
      let first = (is_link_valid_iff i previous c).0 (ground arith) in
      let front : previous ≡ a = cc in let back : c ≡ b = cc in rw (e, ← front, ← back) first
  are_links_valid_sound i previous (c ∷ rest) h (suc k) a b p q =
      let e : i + suc k ≡ suc i + k = omega arith in
      rw e (are_links_valid_sound (suc i) c rest (ground arith) k a b p q)

  are_links_valid_complete :
      (i : ℕ) (previous : Block) (rest : List Block)
      → AreLinked i previous rest
      → are_links_valid P i previous rest ≡ true
  unfolding are_links_valid
  are_links_valid_complete i previous [] h = refl
  are_links_valid_complete i previous (c ∷ rest) h =
      let e : i + 0 ≡ i = omega arith in
      let first : IsLink P i previous c = rw e at (h 0 previous c refl refl) in
      let later =
        are_links_valid_complete (suc i) c rest
          (λ k a b p q. let f : suc i + k ≡ i + suc k = omega arith in rw f (h (suc k) a b p q)) in
      rw ((is_link_valid_iff i previous c).1 first, later)

  pub is_chain_valid_nonempty :
      (genesis : Block) (rest : List Block)
      → (is_chain_valid P (genesis ∷ rest) ≡ true) ↔ (
          IsGenesis P genesis
          × ((k : ℕ) (a b : Block)
              → get_elem? (genesis ∷ rest) k ≡ some a
              → get_elem? (genesis ∷ rest) (suc k) ≡ some b
              → IsLink P (1 + k) a b))
  unfolding is_chain_valid
  is_chain_valid_nonempty genesis rest = (
    λ h. (
      (is_genesis_valid_iff genesis).0 (ground arith),
      are_links_valid_sound 1 genesis rest (ground arith),
    ),
    λ h. rw ((is_genesis_valid_iff genesis).1 h.0, are_links_valid_complete 1 genesis rest h.1),
  )

  -- The first block is a genesis block, and every block behind another is its link.
  pub record IsChain (chain : List Block) : Type 0 where
    pub genesis : Block
    pub first : get_elem? chain 0 ≡ some genesis
    pub begins : IsGenesis P genesis
    pub linked :
        (k : ℕ) (a b : Block)
        → get_elem? chain k ≡ some a
        → get_elem? chain (suc k) ≡ some b
        → IsLink P (1 + k) a b

  -- The chain check passes exactly when there is a first block that is a genesis block, and every
  -- block behind another has its height as index, the hash of its own contents, the link, the Merkle
  -- root, a hash that meets its difficulty, and transactions that verify.
  pub is_chain_valid_iff : (chain : List Block) → (is_chain_valid P chain ≡ true) ↔ IsChain chain
  unfolding is_chain_valid
  is_chain_valid_iff [] = (λ h. absurd (cc), λ h. absurd (cc (h.first)))
  is_chain_valid_iff (b ∷ rest) =
      let whole = is_chain_valid_nonempty b rest in
      (
        λ h. record { genesis = b; first = refl; begins = (whole.0 h).0; linked = (whole.0 h).1 },
        λ h. let same : b ≡ h.genesis = cc (h.first) in whole.1 (rw same h.begins, h.linked),
      )

  are_links_valid-append :
      (i : ℕ) (previous : Block) (rest : List Block) (b : Block)
      → are_links_valid P i previous (rest ++ b ∷ []) ≡ (
          are_links_valid P i previous rest
          && is_link_valid P (i + length rest) (last_from previous rest) b)
  unfolding are_links_valid
  are_links_valid-append i previous [] b = let e : i + 0 ≡ i = omega arith in ground arith
  are_links_valid-append i previous (c ∷ rest) b =
      let e : i + suc (length rest) ≡ suc i + length rest = omega arith in
      rw e (ground (arith, are_links_valid-append (suc i) c rest b))

  -- A valid chain stays valid with a block behind it exactly when that block is a link at the next
  -- height behind the last block.
  pub is_chain_valid-append :
      (chain : List Block) (tip b : Block)
      → last? chain ≡ some tip
      → is_chain_valid P chain ≡ true
      → (is_chain_valid P (chain ++ b ∷ []) ≡ true) ↔ IsLink P (length chain) tip b
  unfolding is_chain_valid
  is_chain_valid-append [] tip b e h = absurd (cc)
  is_chain_valid-append (genesis ∷ rest) tip b e h =
      let split = are_links_valid-append 1 genesis rest b in
      let link = is_link_valid_iff (length (genesis ∷ rest)) tip b in
      let last : last_from genesis rest ≡ tip = ground arith in
      let height : 1 + length rest ≡ suc (length rest) = omega arith in
      let whole : is_chain_valid P (genesis ∷ rest ++ b ∷ [])
          ≡ is_link_valid P (length (genesis ∷ rest)) tip b =
        rw (split, height, last) (ground arith) in
      (λ v. link.0 (sym whole ∙ v), λ l. whole ∙ link.1 l)
