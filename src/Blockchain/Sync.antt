-- ===== src/Blockchain/Sync.antt =====
-- Two nodes with the proof-of-work engine (src/core/blockchain.cpp, include/consensus/pow_engine.h):
-- a block that one mines is accepted by another that has the same chain.
use personalblockchain.Prelude.{
  ℕ, ◌≤◌, ◌≡◌, refl, sym, ap, ◌∙◌, Option, some, inl, inr, List, [], ◌∷◌, ◌++◌, Text, arith, length,
  last_from, true, ◌&&◌, last?, text_eq_iff, ==_iff,
}
use personalblockchain.Platform.{Platform}
use personalblockchain.Block.{Block, compute_merkle_root, calculate_hash}
use personalblockchain.State.{empty_state, apply_block_state, rebuild_state}
use personalblockchain.Consensus.{Engine}
use personalblockchain.Consensus.Adjuster.{Doubles, DifficultyAdjuster, validate_block_timestamp}
use personalblockchain.Consensus.Pow
use personalblockchain.Consensus.Pow.{pow_engine}
use personalblockchain.Consensus.Rules.{Seals, pow_engine-Seals}
use personalblockchain.Blockchain.{
  Blockchain, Storage, mine_pending_transactions, accept_block, append_accepted, append_mined,
  are_blocks_accepted, engine_accepts, validate_chain_against_consensus, is_chain_valid,
  apply_to_ledger,
}
use personalblockchain.Blockchain.Validity.{IsLink, is_chain_valid-append}
use personalblockchain.Blockchain.Outcomes.{mine_pending_transactions_cases, retargeted}
use personalblockchain.Blockchain.Invariant.{IsConsistent, mined-IsLink}

are_blocks_accepted-append :
    (P : Platform) (engine : Option Engine) (e : Engine) (now : ℕ) (previous : Block)
    (rest : List Block) (b : Block)
    → are_blocks_accepted P engine e now previous (rest ++ b ∷ []) ≡ (
        are_blocks_accepted P engine e now previous rest
        && e.validate_block now b (last_from previous rest))
unfolding are_blocks_accepted
are_blocks_accepted-append P engine e now previous [] b = ground arith
are_blocks_accepted-append P engine e now previous (c ∷ rest) b =
    ground (arith, are_blocks_accepted-append P engine e now c rest b)

-- A link with a difficulty from 1 to 64 and a timestamp in bounds passes the engine.
pow_validates :
    (P : Platform) (now height : ℕ) (tip b : Block)
    → IsLink P height tip b
    → 1 ≤ b.difficulty
    → b.difficulty ≤ 64
    → validate_block_timestamp P now b tip ≡ true
    → Pow.validate_block P now b tip ≡ true
unfolding Pow.validate_block
pow_validates P now height tip b link low high timely =
    let hashed = text_eq_iff b.hash (calculate_hash P b) in
    let linked = text_eq_iff b.previous_hash tip.hash in
    let rooted = text_eq_iff b.merkle_root (compute_merkle_root P b.transactions) in ground arith

-- A chain that the rules accept is accepted with one more link that the engine accepts.
validate-append :
    (P : Platform) (e : Engine) (now : ℕ) (chain : List Block) (tip b : Block)
    → last? chain ≡ some tip
    → validate_chain_against_consensus P (some e) now chain ≡ true
    → IsLink P (length chain) tip b
    → e.validate_block now b tip ≡ true
    → validate_chain_against_consensus P (some e) now (chain ++ b ∷ []) ≡ true
unfolding validate_chain_against_consensus engine_accepts
validate-append P e now [] tip b t v link ok = cc
validate-append P e now (g ∷ rest) tip b t v link ok =
    let last : last_from g rest ≡ tip = ground arith in
    let valid : is_chain_valid P (g ∷ rest) ≡ true = ground arith in
    let grown = (is_chain_valid-append P (g ∷ rest) tip b t valid).1 link in
    let split = are_blocks_accepted-append P (some e) e now g rest b in
    rw (grown, split, last, ok) (ground arith)

accept_block-link :
    {D : Type 0} (P : Platform) (engine : Option Engine) (storage : Option (Storage D)) (now : ℕ)
    (bc : Blockchain D) (tip b : Block)
    → last? bc.chain ≡ some tip
    → IsLink P (length bc.chain) tip b
    → validate_chain_against_consensus P engine now (bc.chain ++ b ∷ []) ≡ true
    → accept_block P engine storage now bc b ≡ (append_accepted P engine storage bc b, true)
unfolding accept_block
accept_block-link P engine storage now bc tip b t link v =
    let indexed = (==_iff b.index (length bc.chain)).1 link.indexed in
    let linked = (text_eq_iff b.previous_hash tip.hash).1 link.linked in
    rw (t, accept_block, indexed, linked, v)

module _ {D E F : Type 0} (P : Platform) (doubles : Doubles F) (a : DifficultyAdjuster F)
    (storage : Option (Storage D)) (peer_storage : Option (Storage E)) where
  abbrev engine : Option Engine
  engine = some (pow_engine P doubles a)

  laws : (e : Engine) → engine ≡ some e → Seals P e
  laws e h =
      let same : pow_engine P doubles a ≡ e = cc in rw (← same) (pow_engine-Seals P doubles a)

  -- A block that a consistent node mines at a difficulty from 1 to 64 is accepted by a consistent
  -- peer whose chain is the same, holds by the peer's clock, and finds the timestamp of the block in
  -- bounds; both nodes then have the same chain and the same ledger.
  pub accept_block-mined :
      (now later fuel received : ℕ) (bc after : Blockchain D) (peer : Blockchain E) (block : Block)
      (miner : Text)
      → IsConsistent P bc
      → IsConsistent P peer
      → peer.chain ≡ bc.chain
      → mine_pending_transactions P (some (pow_engine P doubles a)) storage now later fuel bc miner
        ≡ some (after, block)
      → validate_chain_against_consensus P (some (pow_engine P doubles a)) received peer.chain
        ≡ true
      → 1 ≤ block.difficulty
      → block.difficulty ≤ 64
      → ((tip : Block)
          → last? peer.chain ≡ some tip
          → validate_block_timestamp P received block tip ≡ true)
      → let result =
          accept_block P (some (pow_engine P doubles a)) peer_storage received peer block in
        (result.1 ≡ true)
        × (result.0.chain ≡ after.chain)
        × (result.0.state_manager ≡ after.state_manager)
  unfolding append_accepted append_mined apply_to_ledger
  accept_block-mined now later fuel received bc after peer block miner v w same mined valid low high
        timely =
      elim (mine_pending_transactions_cases P engine storage now later fuel bc miner) [
        | inl out ↦ absurd (cc)
        | inr c ↦
            let tip : last? peer.chain ≡ some c.0 = rw same (c.2) in
            let link0 =
              (mined-IsLink P storage engine laws now later fuel bc c.0 c.1 miner v c.3).0 in
            let made : block ≡ c.1 = cc (c.4) in
            let grown : after ≡ append_mined P engine storage (retargeted P engine storage bc) c.1 =
              cc (c.4) in
            let link : IsLink P (length peer.chain) c.0 block = rw (same, made) link0 in
            let accepted =
              accept_block-link P engine peer_storage received peer c.0 block tip link (
                validate-append P (pow_engine P doubles a) received peer.chain c.0 block tip valid
                  link
                  (pow_validates P received (length peer.chain) c.0 block link low high
                    (timely c.0 tip))) in
            let ledgers : peer.state_manager ≡ bc.state_manager =
              w.ledger ∙ ap (rebuild_state empty_state) same ∙ sym v.ledger in
            rw (accepted, grown, ← made)
              (
                refl,
                ap (λ (chain : List Block). chain ++ block ∷ []) same,
                ap (λ s. apply_block_state s block) ledgers,
              )
      ]
