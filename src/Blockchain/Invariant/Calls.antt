-- ===== src/Blockchain/Invariant/Calls.antt =====
-- Every call of src/core/blockchain.cpp keeps the invariant of a node.
use personalblockchain.Prelude.{
  ℕ, min, ◌≡◌, refl, sym, ap, ◌∙◌, inl, inr, true, not, Option, none, some, List, [], ◌∷◌, ◌++◌,
  Text, arith, length, take, drop, leb, all-append, all-take, all-keep, all-drop, all-keep_self,
  drop_all, if◌then◌else◌,
}
use personalblockchain.Platform.{Platform}
use personalblockchain.Transaction
use personalblockchain.Transaction.{Transaction, is_coinbase, coinbase_key, compute_tx_id}
use personalblockchain.Block.{Block, new_block}
use personalblockchain.State.{
  empty_state, apply_block_state, rebuild_state, is_double_spend, clear, get_all_spent_tx_ids,
}
use personalblockchain.Consensus.{Engine}
use personalblockchain.Consensus.Rules.{IsSealed, Seals, mine_block-IsSealed}
use personalblockchain.Blockchain.{
  Blockchain, Storage, is_chain_valid, enqueue, add_transaction, make_coinbase, append_mined,
  append_accepted, install_chain, construct, mine_pending_transactions, accept_block, replace_chain,
  apply_to_ledger, block_transactions, next_difficulty, seal, confirms, max_txs_per_block,
}
use personalblockchain.Blockchain.Validity.{IsLink, is_chain_valid-append}
use personalblockchain.Blockchain.Admission.{add_transaction-IsAdmissible}
use personalblockchain.Blockchain.Invariant.Sealed.{
  rebuild_state-append, payments_verify, make_coinbase-is_coinbase, coinbase_verifies,
  sealed-IsLink, create_genesis-is_chain_valid,
}
use personalblockchain.Blockchain.Outcomes.{
  mine_pending_transactions_cases, accept_block_cases, replace_chain_cases, construct_cases,
  candidate, retargeted,
}
use personalblockchain.Blockchain.Invariant.Mempool.{
  is_payment, IsConsistent, AreUnspent-mined, AreUnspent-accepted, AreDistinct-append,
  AreDistinct-keep, AreDistinct-drop,
}

module _ {D : Type 0} (P : Platform) where
  -- Whether a transaction is let in or refused, the invariant is kept.
  pub add_transaction-IsConsistent :
      (now : ℕ) (bc : Blockchain D) (tx : Transaction)
      → IsConsistent P bc
      → IsConsistent P (add_transaction P now bc tx).0
  unfolding enqueue
  add_transaction-IsConsistent now bc tx v = elim (add_transaction-IsAdmissible P now bc tx) [
    | inr (refused, e) ↦ rw e v
    | inl (ok, e) ↦ rw e (record {
      chain_valid = v.chain_valid;
      ledger = v.ledger;
      payments =
          all-append (is_payment P) bc.mempool (tx ∷ []) v.payments (rw (ok.verified, ok.plain));
      distinct = AreDistinct-append bc.mempool tx v.distinct ok.unseen;
      unspent = all-append _ bc.mempool (tx ∷ []) v.unspent (rw ok.unspent);
    })
  ]

module _ {D : Type 0} (P : Platform) (storage : Option (Storage D)) where
  append_accepted-IsConsistent :
      (engine : Option Engine) (bc : Blockchain D) (b : Block)
      → IsConsistent P bc
      → is_chain_valid P (bc.chain ++ b ∷ []) ≡ true
      → IsConsistent P (append_accepted P engine storage bc b)
  unfolding append_accepted apply_to_ledger
  append_accepted-IsConsistent engine bc b v valid = record {
    chain_valid = valid;
    ledger =
        ap (λ s. apply_block_state s b) v.ledger
        ∙ sym (rebuild_state-append empty_state bc.chain b);
    payments = all-keep (is_payment P) (λ tx. not (confirms b tx)) bc.mempool v.payments;
    distinct = AreDistinct-keep (λ tx. not (confirms b tx)) bc.mempool v.distinct;
    unspent = AreUnspent-accepted bc.state_manager b bc.mempool v.unspent;
  }

  -- Accepted or not, a block of a peer keeps the invariant.
  pub accept_block-IsConsistent :
      (engine : Option Engine) (now : ℕ) (bc : Blockchain D) (b : Block)
      → IsConsistent P bc
      → IsConsistent P (accept_block P engine storage now bc b).0
  accept_block-IsConsistent engine now bc b v =
      elim (accept_block_cases P engine storage now bc b) [
        | inl e ↦ rw e v
        | inr c ↦ rw c.5 (append_accepted-IsConsistent engine bc b v c.4)
      ]

  -- Replaced or not, a chain of a peer keeps the invariant.
  pub replace_chain-IsConsistent :
      (engine : Option Engine) (now : ℕ) (bc : Blockchain D) (chain : List Block)
      → IsConsistent P bc
      → IsConsistent P (replace_chain P engine storage now bc chain).0
  unfolding install_chain rebuild_state clear is_double_spend get_all_spent_tx_ids
  replace_chain-IsConsistent engine now bc chain v =
      elim (replace_chain_cases P engine storage now bc chain) [
        | inl e ↦ rw e v
        | inr c ↦ rw c.2 (record {
          chain_valid = c.1;
          ledger = refl;
          payments = all-keep (is_payment P) _ bc.mempool v.payments;
          distinct = AreDistinct-keep _ bc.mempool v.distinct;
          unspent = all-keep_self _ bc.mempool;
        })
      ]

  -- What an engine, or the built-in nonce search, seals at its own difficulty.
  seal-IsSealed :
      (engine : Option Engine)
      → ((e : Engine) → engine ≡ some e → Seals P e)
      → (fuel : ℕ) (bc : Blockchain D) (b r : Block) (miner : Text)
      → b.difficulty ≡ next_difficulty P engine storage bc
      → seal P engine storage fuel b miner ≡ some r
      → IsSealed P b r
  seal-IsSealed none laws fuel bc b r miner asked made = mine_block-IsSealed P fuel b r made
  seal-IsSealed (some e) laws fuel bc b r miner asked made =
      (laws e refl).seals fuel b r miner bc.chain bc.difficulty asked made

  append_mined-IsConsistent :
      (engine : Option Engine) (bc : Blockchain D) (b : Block) (reward : Transaction)
      → IsConsistent P bc
      → b.transactions ≡ reward ∷ take (min (length bc.mempool) max_txs_per_block) bc.mempool
      → is_coinbase reward ≡ true
      → is_chain_valid P (bc.chain ++ b ∷ []) ≡ true
      → IsConsistent P (append_mined P engine storage bc b)
  unfolding append_mined apply_to_ledger
  append_mined-IsConsistent engine bc b reward v filled coined valid =
      let n = min (length bc.mempool) max_txs_per_block in
      let left : (if leb (length bc.mempool) n then [] else drop n bc.mempool) ≡ drop n bc.mempool =
        ground (arith, drop_all n bc.mempool) in
      record {
        chain_valid = valid;
        ledger =
            ap (λ s. apply_block_state s b) v.ledger
            ∙ sym (rebuild_state-append empty_state bc.chain b);
        payments = rw left (all-drop (is_payment P) n bc.mempool v.payments);
        distinct = rw left (AreDistinct-drop n bc.mempool v.distinct);
        unspent = rw left (
            AreUnspent-mined bc.state_manager b reward n bc.mempool filled coined v.distinct
              v.unspent);
      }

  retargeted-IsConsistent :
      (engine : Option Engine) (bc : Blockchain D)
      → IsConsistent P bc
      → IsConsistent P (retargeted P engine storage bc)
  retargeted-IsConsistent engine bc v = record {
    chain_valid = v.chain_valid;
    ledger = v.ledger;
    payments = v.payments;
    distinct = v.distinct;
    unspent = v.unspent;
  }

  pub mined-IsLink :
      (engine : Option Engine)
      → ((e : Engine) → engine ≡ some e → Seals P e)
      → (now later fuel : ℕ) (bc : Blockchain D) (tip block : Block) (miner : Text)
      → IsConsistent P bc
      → seal P engine storage fuel (candidate P engine storage now later bc tip miner) miner
        ≡ some block
      → IsLink P (length bc.chain) tip block
        × (block.transactions ≡ block_transactions P engine storage now bc miner)
  unfolding new_block
  mined-IsLink engine laws now later fuel bc tip block miner v made =
      let n = min (length bc.mempool) max_txs_per_block in
      let sealed =
        seal-IsSealed engine laws fuel bc (candidate P engine storage now later bc tip miner) block
          miner refl made in
      let payments =
        all-take (Transaction.verify P) n bc.mempool (payments_verify P bc.mempool v.payments) in
      (
        sealed-IsLink P later (length bc.chain) (next_difficulty P engine storage bc) tip block
            (block_transactions P engine storage now bc miner) sealed
            (rw
              (coinbase_verifies P (make_coinbase P now miner)
                (make_coinbase-is_coinbase P now miner))
              payments),
        sealed.same_transactions,
      )

  -- A mined block extends a valid chain to a valid chain, and leaves the mempool without it.
  pub mine_pending_transactions-IsConsistent :
      (engine : Option Engine)
      → ((e : Engine) → engine ≡ some e → Seals P e)
      → (now later fuel : ℕ) (bc after : Blockchain D) (block : Block) (miner : Text)
      → IsConsistent P bc
      → mine_pending_transactions P engine storage now later fuel bc miner ≡ some (after, block)
      → IsConsistent P after
  mine_pending_transactions-IsConsistent engine laws now later fuel bc after block miner v e =
      elim (mine_pending_transactions_cases P engine storage now later fuel bc miner) [
        | inl out ↦ absurd (cc)
        | inr c ↦
            let link = mined-IsLink engine laws now later fuel bc c.0 c.1 miner v c.3 in
            let result : after
                ≡ append_mined P engine storage (retargeted P engine storage bc) c.1 =
              cc (c.4) in
            rw result (
              append_mined-IsConsistent engine (retargeted P engine storage bc) c.1
                (make_coinbase P now miner) (retargeted-IsConsistent engine bc v) link.1
                (make_coinbase-is_coinbase P now miner)
                ((is_chain_valid-append P bc.chain c.0 c.1 c.2 v.chain_valid).1 link.0))
      ]

  -- A new node, from the disk or from a genesis block, is consistent.
  pub construct-IsConsistent :
      (engine : Option Engine) (now fuel difficulty : ℕ) (disk : D) (bc : Blockchain D)
      → construct P engine storage now fuel difficulty disk ≡ some bc
      → IsConsistent P bc
  construct-IsConsistent engine now fuel difficulty disk bc e =
      elim (construct_cases P engine storage now fuel difficulty disk) [
        | inl out ↦ absurd (cc)
        | inr c ↦
            let same : bc ≡ c.0 = cc (c.1) in
            let valid : is_chain_valid P c.0.chain ≡ true = elim c.4 [
              | inl loaded ↦ loaded
              | inr g ↦ rw g.2 (create_genesis-is_chain_valid P fuel difficulty g.0 g.1)
            ] in
            rw same (record {
              chain_valid = valid;
              ledger = c.3;
              payments = rw c.2 refl;
              distinct = rw c.2 tt;
              unspent = rw c.2 refl;
            })
      ]
