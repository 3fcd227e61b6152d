-- ===== src/Blockchain/Decisions.antt =====
-- When the calls of src/core/blockchain.cpp that take blocks and chains accept them, and when not.
use personalblockchain.Prelude.{
  ℕ, ◌≡◌, ◌+◌, ◌%◌, ◌⊎◌, inl, inr, refl, sym, ap, subst, any, keep, not, text_eq, u64_mod,
  if◌then◌else◌, Bool-cases, true, false, Option, none, some, List, [], ◌∷◌, ◌++◌, Text,
  text_eq_iff, arith, length, last?, Option-cases,
}
use personalblockchain.Platform.{Platform}
use personalblockchain.Block.{Block}
use personalblockchain.Consensus.{Engine}
use personalblockchain.Prelude.Map.{contains}
use personalblockchain.State.{
  apply_transactions, apply_block_state, rebuild_state, get_balance, get_all_spent_tx_ids,
}
use personalblockchain.State.Views.{
  balance_after, fold_transactions, chain_transactions, get_balance-apply_transactions,
  get_balance-rebuild_state,
}
use personalblockchain.Blockchain.{
  Blockchain, Storage, validate_chain_against_consensus, append_mined, append_accepted,
  install_chain, apply_to_ledger, block_accepted, mine_pending_transactions, accept_block,
  replace_chain, seal, should_replace,
}
use personalblockchain.Blockchain.Outcomes.{candidate, retargeted}

module _ {D : Type 0} (P : Platform) (engine : Option Engine) (storage : Option (Storage D)) where
  -- What has to hold of a block from a peer.
  pub record IsAcceptable (now : ℕ) (bc : Blockchain D) (b : Block) : Type 0 where
    pub tip : Block
    pub last : last? bc.chain ≡ some tip
    pub indexed : b.index ≡ length bc.chain
    pub linked : b.previous_hash ≡ tip.hash
    pub valid : validate_chain_against_consensus P engine now (bc.chain ++ b ∷ []) ≡ true

  -- What becomes of a chain that takes a block: the block stands at its end, its transactions have
  -- passed through the ledger and left the mempool, it was handed to the storage and the callback.
  pub record IsExtended (bc : Blockchain D) (b : Block) (after : Blockchain D) : Type 0 where
    pub chained : after.chain ≡ bc.chain ++ b ∷ []
    pub ledger : after.state_manager ≡ apply_transactions bc.state_manager b.transactions
    pub balances :
        (a : Text)
        → get_balance after.state_manager a
          ≡ fold_transactions (balance_after a) (get_balance bc.state_manager a) b.transactions
    pub mempool :
        after.mempool
        ≡ keep (λ p. not (any (λ tx. text_eq tx.tx_id p.tx_id) b.transactions)) bc.mempool
    pub difficulty : after.difficulty ≡ bc.difficulty
    pub counted : after.chain_update_version ≡ (bc.chain_update_version + 1) % u64_mod
    pub stored : after.disk ≡ elim storage [ none ↦ bc.disk | some s ↦ s.append_block bc.disk b ]
    pub heard :
        after.events
        ≡ (if bc.on_block_accepted then bc.events ++ block_accepted b ∷ [] else bc.events)

  append_accepted-IsExtended :
      (bc : Blockchain D) (b : Block) → IsExtended bc b (append_accepted P engine storage bc b)
  unfolding append_accepted apply_to_ledger apply_block_state
  append_accepted-IsExtended bc b = record {
    chained = refl;
    ledger = refl;
    balances = λ a. get_balance-apply_transactions bc.state_manager b.transactions a;
    mempool = refl;
    difficulty = refl;
    counted = refl;
    stored = refl;
    heard = refl;
  }

  -- A block is taken if it has the next index, links to the last block, and leaves the chain valid for
  -- the node and its engine: then it stands at the end of the chain, every balance is changed by its
  -- transactions in order, they are gone from the mempool, and it is stored and told to the
  -- callback; otherwise it is refused with nothing changed.
  pub accept_block-IsAcceptable :
      (now : ℕ) (bc : Blockchain D) (b : Block)
      → (IsAcceptable now bc b
          × ((accept_block P engine storage now bc b).1 ≡ true)
          × IsExtended bc b (accept_block P engine storage now bc b).0)
        ⊎ ((¬ IsAcceptable now bc b) × (accept_block P engine storage now bc b ≡ (bc, false)))
  unfolding accept_block
  accept_block-IsAcceptable now bc b = elim (Option-cases (last? bc.chain)) [
    | inl e ↦ inr (λ a. cc (a.last), ground arith)
    | inr (tip, e) ↦
        let linked = text_eq_iff b.previous_hash tip.hash in
        let outcome : ((b.index ≡ length bc.chain)
              × (b.previous_hash ≡ tip.hash)
              × (validate_chain_against_consensus P engine now (bc.chain ++ b ∷ []) ≡ true)
              × (accept_block P engine storage now bc b
                  ≡ (append_accepted P engine storage bc b, true)))
            ⊎ ((¬ (
                  (b.index ≡ length bc.chain)
                  × (b.previous_hash ≡ tip.hash)
                  × (validate_chain_against_consensus P engine now (bc.chain ++ b ∷ []) ≡ true)))
                × (accept_block P engine storage now bc b ≡ (bc, false))) =
          ground arith in
        elim outcome [
          | inl o ↦ inl (
            record { tip = tip; last = e; indexed = o.0; linked = o.1; valid = o.2 },
            ap (λ r. r.1) (o.3),
            subst (IsExtended bc b) (sym (ap (λ r. r.0) (o.3))) (append_accepted-IsExtended bc b),
          )
          | inr o ↦ inr (λ a. o.0 (a.indexed, cc (a.last, a.linked), a.valid), o.1)
        ]
  ]

  -- What becomes of a node that takes over a chain: its ledger is that of the chain alone, and what
  -- the chain spends has left the mempool.
  pub record IsInstalled (bc : Blockchain D) (chain : List Block) (after : Blockchain D)
      : Type 0 where
    pub chained : after.chain ≡ chain
    pub ledger : after.state_manager ≡ rebuild_state bc.state_manager chain
    pub balances :
        (a : Text)
        → get_balance after.state_manager a
          ≡ fold_transactions (balance_after a) 0 (chain_transactions chain)
    pub mempool :
        after.mempool
        ≡ keep (λ p. not (contains p.tx_id (get_all_spent_tx_ids after.state_manager))) bc.mempool
    pub difficulty : after.difficulty ≡ bc.difficulty
    pub counted : after.chain_update_version ≡ (bc.chain_update_version + 1) % u64_mod
    pub stored : after.disk ≡ elim storage [ none ↦ bc.disk | some s ↦ s.save_chain bc.disk chain ]
    pub heard :
        (tip : Block)
        → last? chain ≡ some tip
        → after.events
          ≡ (if bc.on_block_accepted then bc.events ++ block_accepted tip ∷ [] else bc.events)

  install_chain-IsInstalled :
      (bc : Blockchain D) (chain : List Block)
      → IsInstalled bc chain (install_chain P engine storage bc chain)
  unfolding install_chain
  install_chain-IsInstalled bc chain = record {
    chained = refl;
    ledger = refl;
    balances = λ a. get_balance-rebuild_state bc.state_manager chain a;
    mempool = refl;
    difficulty = refl;
    counted = refl;
    stored = refl;
    heard = λ tip e. ground arith;
  }

  -- A chain from a peer is taken over if it is preferred to the current one and valid for the node and
  -- its engine: then it is the chain of the node, every balance is the fold of its transactions, what
  -- it spends is gone from the mempool, and it is stored and its last block told to the callback;
  -- otherwise it is refused with nothing changed.
  pub replace_chain_decides :
      (now : ℕ) (bc : Blockchain D) (chain : List Block)
      → ((should_replace P engine storage bc chain ≡ true)
          × (validate_chain_against_consensus P engine now chain ≡ true)
          × ((replace_chain P engine storage now bc chain).1 ≡ true)
          × IsInstalled bc chain (replace_chain P engine storage now bc chain).0)
        ⊎ ((¬ (
              (should_replace P engine storage bc chain ≡ true)
              × (validate_chain_against_consensus P engine now chain ≡ true)))
            × (replace_chain P engine storage now bc chain ≡ (bc, false)))
  unfolding replace_chain
  replace_chain_decides now bc chain =
      let installed = install_chain-IsInstalled bc chain in
      elim (Bool-cases (should_replace P engine storage bc chain)) [
        | inl preferred ↦ elim (Bool-cases (validate_chain_against_consensus P engine now chain)) [
          | inl valid ↦
              let same : replace_chain P engine storage now bc chain
                  ≡ (install_chain P engine storage bc chain, true) =
                ground arith in
              inl (
                preferred,
                valid,
                ap (λ r. r.1) same,
                subst (IsInstalled bc chain) (sym (ap (λ r. r.0) same)) installed,
              )
          | inr invalid ↦ inr (λ h. ground arith, ground arith)
        ]
        | inr other ↦ inr (λ h. ground arith, ground arith)
      ]

  -- Mining appends the candidate behind the last block, with the difficulty that the engine asks
  -- for, if the engine or the nonce search seals it within the fuel; it returns nothing only if
  -- the chain is empty or the candidate is not sealed.
  mine_pending_transactions_decides :
      (now later fuel : ℕ) (bc : Blockchain D) (miner : Text)
      → ((tip block : Block) × (last? bc.chain ≡ some tip)
          × (seal P engine storage fuel (candidate P engine storage now later bc tip miner) miner
              ≡ some block)
          × (mine_pending_transactions P engine storage now later fuel bc miner
              ≡ some (append_mined P engine storage (retargeted P engine storage bc) block, block)))
        ⊎ ((mine_pending_transactions P engine storage now later fuel bc miner ≡ none)
            × ((last? bc.chain ≡ none)
                ⊎ ((tip : Block) × (last? bc.chain ≡ some tip)
                    × (seal P engine storage fuel
                          (candidate P engine storage now later bc tip miner)
                          miner
                        ≡ none))))
  unfolding mine_pending_transactions
  mine_pending_transactions_decides now later fuel bc miner = elim (Option-cases (last? bc.chain)) [
    | inl e ↦ inr (ground arith, inl e)
    | inr (tip, e) ↦
        elim (Option-cases
          (seal P engine storage fuel (candidate P engine storage now later bc tip miner) miner)) [
            | inl out ↦ inr (rw (e, mine_pending_transactions, out), inr (tip, e, out))
            | inr (block, sealed) ↦
                inl (tip, block, e, sealed, rw (e, mine_pending_transactions, sealed))
          ]
  ]
