-- ===== src/Blockchain/Outcomes.antt =====
-- How each call of src/core/blockchain.cpp can end, with what was checked on the way.
use personalblockchain.Prelude.{
  ℕ, ◌≡◌, refl, ◌⊎◌, inl, inr, true, false, Option, none, some, List, [], ◌∷◌, ◌++◌, Text,
  text_eq_iff, arith, length, last?, Option-cases, Bool-cases,
}
use personalblockchain.Platform.{Platform}
use personalblockchain.Block.{Block, new_block, create_genesis}
use personalblockchain.State.{empty_state, apply_block_state, apply_blocks, rebuild_state, clear}
use personalblockchain.Consensus.{Engine}
use personalblockchain.Blockchain.Defs.{
  Blockchain, Storage, is_chain_valid, engine_accepts, validate_chain_against_consensus,
}
use personalblockchain.Blockchain.Calls.{
  append_mined, append_accepted, install_chain, mine_pending_transactions, accept_block,
  replace_chain, block_transactions, next_difficulty, seal, should_replace, construct, fresh,
  load_chain, save_chain,
}

validate_parts :
    (P : Platform) (engine : Option Engine) (now : ℕ) (chain : List Block)
    → validate_chain_against_consensus P engine now chain ≡ true
    → (is_chain_valid P chain ≡ true) × (engine_accepts P engine now chain ≡ true)
unfolding validate_chain_against_consensus
validate_parts P engine now chain h = ground arith

module _ {D : Type 0} (P : Platform) (engine : Option Engine) (storage : Option (Storage D)) where
  -- A block is refused with nothing changed, or it has the next index, links to the tip, leaves the
  -- chain valid, and is appended.
  pub accept_block_cases :
      (now : ℕ) (bc : Blockchain D) (b : Block)
      → (accept_block P engine storage now bc b ≡ (bc, false))
        ⊎ ((tip : Block) × (last? bc.chain ≡ some tip)
            × (b.index ≡ length bc.chain)
            × (b.previous_hash ≡ tip.hash)
            × (is_chain_valid P (bc.chain ++ b ∷ []) ≡ true)
            × (accept_block P engine storage now bc b
                ≡ (append_accepted P engine storage bc b, true)))
  unfolding accept_block
  accept_block_cases now bc b = elim (Option-cases (last? bc.chain)) [
    | inl e ↦ inl (ground arith)
    | inr (tip, e) ↦
        let linked = text_eq_iff b.previous_hash tip.hash in
        let valid = validate_parts P engine now (bc.chain ++ b ∷ []) in
        let outcome : (accept_block P engine storage now bc b ≡ (bc, false))
            ⊎ ((b.index ≡ length bc.chain)
                × (b.previous_hash ≡ tip.hash)
                × (is_chain_valid P (bc.chain ++ b ∷ []) ≡ true)
                × (accept_block P engine storage now bc b
                    ≡ (append_accepted P engine storage bc b, true))) =
          ground arith in
        elim outcome [ inl refused ↦ inl refused | inr o ↦ inr (tip, e, o.0, o.1, o.2, o.3) ]
  ]

  -- A chain is refused with nothing changed, or it is preferred, valid, and installed.
  pub replace_chain_cases :
      (now : ℕ) (bc : Blockchain D) (chain : List Block)
      → (replace_chain P engine storage now bc chain ≡ (bc, false))
        ⊎ ((should_replace P engine storage bc chain ≡ true)
            × (is_chain_valid P chain ≡ true)
            × (replace_chain P engine storage now bc chain
                ≡ (install_chain P engine storage bc chain, true)))
  unfolding replace_chain
  replace_chain_cases now bc chain = let valid = validate_parts P engine now chain in ground arith

  -- The block that a node seals next.
  abbrev pub candidate : ℕ → ℕ → Blockchain D → Block → Text → Block
  candidate now later bc tip miner =
      new_block P later (length bc.chain) tip.hash
        (block_transactions P engine storage now bc miner) (next_difficulty P engine storage bc)

  abbrev pub retargeted : Blockchain D → Blockchain D
  retargeted bc = record bc { difficulty = next_difficulty P engine storage bc }

  -- Mining does not end with the fuel, or the candidate behind the tip is sealed and appended.
  pub mine_pending_transactions_cases :
      (now later fuel : ℕ) (bc : Blockchain D) (miner : Text)
      → (mine_pending_transactions P engine storage now later fuel bc miner ≡ none)
        ⊎ ((tip block : Block) × (last? bc.chain ≡ some tip)
            × (seal P engine storage fuel (candidate now later bc tip miner) miner ≡ some block)
            × (mine_pending_transactions P engine storage now later fuel bc miner
                ≡ some (append_mined P engine storage (retargeted bc) block, block)))
  unfolding mine_pending_transactions
  mine_pending_transactions_cases now later fuel bc miner = elim (Option-cases (last? bc.chain)) [
    | inl e ↦ inl (ground arith)
    | inr (tip, e) ↦
        elim (Option-cases (seal P engine storage fuel (candidate now later bc tip miner) miner)) [
          | inl out ↦ inl (rw (e, mine_pending_transactions, out))
          | inr (block, sealed) ↦
              inr (tip, block, e, sealed, rw (e, mine_pending_transactions, sealed))
        ]
  ]

  -- The constructor runs out of fuel, takes a valid chain from the disk, or starts from a genesis
  -- block that it has mined.
  pub construct_cases :
      (now fuel difficulty : ℕ) (disk : D)
      → (construct P engine storage now fuel difficulty disk ≡ none)
        ⊎ ((bc : Blockchain D) × (construct P engine storage now fuel difficulty disk ≡ some bc)
            × (bc.mempool ≡ [])
            × (bc.state_manager ≡ rebuild_state empty_state bc.chain)
            × ((is_chain_valid P bc.chain ≡ true)
                ⊎ ((genesis : Block) × (create_genesis P fuel difficulty ≡ some genesis)
                    × (bc.chain ≡ genesis ∷ []))))
  unfolding construct rebuild_state apply_blocks clear
  construct_cases now fuel difficulty disk =
      let start = fresh P engine storage difficulty disk in
      let loaded = load_chain P engine storage disk in
      elim (Bool-cases (validate_chain_against_consensus P engine now loaded)) [
        | inl ok ↦ inr (
          record start {
            chain = loaded;
            state_manager = rebuild_state empty_state loaded;
            chain_update_version = 1;
          },
          rw ok,
          refl,
          refl,
          inl (validate_parts P engine now loaded ok).0,
        )
        | inr bad ↦ elim (Option-cases (create_genesis P fuel difficulty)) [
          | inl out ↦ inl (rw (bad, out))
          | inr (genesis, made) ↦ inr (
            record start {
              chain = genesis ∷ [];
              state_manager = apply_block_state empty_state genesis;
              chain_update_version = 1;
              disk = save_chain P engine storage (genesis ∷ []) disk;
            },
            rw (bad, made),
            refl,
            refl,
            inr (genesis, made, refl),
          )
        ]
      ]
