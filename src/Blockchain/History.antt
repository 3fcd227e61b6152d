-- ===== src/Blockchain/History.antt =====
-- Histories of a node: any sequence of the calls of src/core/blockchain.cpp after the constructor,
-- whatever peers and clients send.
use personalblockchain.Prelude.{
  Bool, ℕ, ◌≤◌, ◌<◌, ◌≡◌, refl, Option, some, none, inl, inr, ◌⊎◌, ◌++◌, List, [], ◌∷◌, Text, arith,
  length, length-append, true,
}
use personalblockchain.Platform.{Platform}
use personalblockchain.Transaction.{Transaction}
use personalblockchain.Block.{Block}
use personalblockchain.State.{empty_state, get_balance}
use personalblockchain.State.Views.{
  balance_after, chain_transactions, fold_transactions, get_balance-rebuild_state,
}
use personalblockchain.Consensus.{Engine}
use personalblockchain.Consensus.Rules.{Seals}
use personalblockchain.Blockchain.{
  Blockchain, Storage, enqueue, add_transaction, construct, mine_pending_transactions, accept_block,
  replace_chain, append_mined, append_accepted, install_chain, apply_to_ledger, persist_chain,
  persist_block, should_replace, set_on_block_added, set_on_block_accepted,
  set_on_transaction_added,
}
use personalblockchain.Blockchain.Admission.{add_transaction-IsAdmissible}
use personalblockchain.Blockchain.Outcomes.{
  accept_block_cases, replace_chain_cases, mine_pending_transactions_cases, retargeted,
}
use personalblockchain.Blockchain.Invariant.{
  IsConsistent, construct-IsConsistent, add_transaction-IsConsistent,
  mine_pending_transactions-IsConsistent, accept_block-IsConsistent, replace_chain-IsConsistent,
}

same-IsConsistent :
    {D : Type 0} (P : Platform) (bc after : Blockchain D)
    → after.chain ≡ bc.chain
    → after.mempool ≡ bc.mempool
    → after.state_manager ≡ bc.state_manager
    → IsConsistent P bc
    → IsConsistent P after
same-IsConsistent P bc after chain mempool state v = record {
  chain_valid = rw chain (v.chain_valid);
  ledger = rw (chain, state) (v.ledger);
  payments = rw mempool (v.payments);
  distinct = rw mempool (v.distinct);
  unspent = rw (mempool, state) (v.unspent);
}

disk-IsConsistent :
    {D : Type 0} (P : Platform) (bc : Blockchain D) (disk : D)
    → IsConsistent P bc
    → IsConsistent P (record bc { disk = disk })
disk-IsConsistent P bc disk v = same-IsConsistent P bc _ refl refl refl v

persist_chain_disk :
    {D : Type 0} (P : Platform) (engine : Option Engine) (storage : Option (Storage D))
    (bc : Blockchain D)
    → (disk : D) × (persist_chain P engine storage bc ≡ record bc { disk = disk })
unfolding persist_chain
persist_chain_disk P engine none bc = (bc.disk, refl)
persist_chain_disk P engine (some s) bc = (_, refl)

should_replace_longer :
    {D : Type 0} (P : Platform) (engine : Option Engine) (storage : Option (Storage D))
    → ((e : Engine) (old new : List Block)
        → engine ≡ some e
        → e.should_accept_chain old new ≡ true
        → length old < length new)
    → (bc : Blockchain D) (chain : List Block) → should_replace P engine storage bc chain ≡ true
    → length bc.chain < length chain
should_replace_longer P none storage longer bc chain h = ground arith
should_replace_longer P (some e) storage longer bc chain h = longer e bc.chain chain refl h

module _ {D : Type 0} (P : Platform) (engine : Option Engine) (storage : Option (Storage D)) where
  -- One public call, with the arguments and clock readings that the outside chooses.
  pub data Step (bc : Blockchain D) : Blockchain D → Type 0 where
    adds :
        (now : ℕ) (tx : Transaction) (after : Blockchain D)
        → (add_transaction P now bc tx).0 ≡ after
        → Step bc after
    mines :
        (now later fuel : ℕ) (miner : Text) (after : Blockchain D) (block : Block)
        → mine_pending_transactions P engine storage now later fuel bc miner ≡ some (after, block)
        → Step bc after
    accepts :
        (now : ℕ) (block : Block) (after : Blockchain D)
        → (accept_block P engine storage now bc block).0 ≡ after
        → Step bc after
    replaces :
        (now : ℕ) (chain : List Block) (after : Blockchain D)
        → (replace_chain P engine storage now bc chain).0 ≡ after
        → Step bc after
    persists_chain :
        (after : Blockchain D) → persist_chain P engine storage bc ≡ after → Step bc after
    persists_block :
        (block : Block) (after : Blockchain D)
        → persist_block P engine storage bc block ≡ after
        → Step bc after
    sets_on_block_added : (callback : Bool) → Step bc (set_on_block_added bc callback)
    sets_on_block_accepted : (callback : Bool) → Step bc (set_on_block_accepted bc callback)
    sets_on_transaction_added : (callback : Bool) → Step bc (set_on_transaction_added bc callback)

  -- What a node can become after its constructor.
  pub data Reach : Blockchain D → Type 0 where
    starts :
        (now fuel difficulty : ℕ) (disk : D) (bc : Blockchain D)
        → construct P engine storage now fuel difficulty disk ≡ some bc
        → Reach bc
    steps : {bc after : Blockchain D} → Reach bc → Step bc after → Reach after

  Step-IsConsistent :
      ((e : Engine) → engine ≡ some e → Seals P e)
      → {bc after : Blockchain D} → Step bc after
      → IsConsistent P bc
      → IsConsistent P after
  unfolding persist_block set_on_block_added set_on_block_accepted set_on_transaction_added
  Step-IsConsistent laws (adds now tx after e) v =
      rw (← e) (add_transaction-IsConsistent P now _ tx v)
  Step-IsConsistent laws (mines now later fuel miner after block e) v =
      mine_pending_transactions-IsConsistent P storage engine laws now later fuel _ after block
        miner v e
  Step-IsConsistent laws (accepts now block after e) v =
      rw (← e) (accept_block-IsConsistent P storage engine now _ block v)
  Step-IsConsistent laws (replaces now chain after e) v =
      rw (← e) (replace_chain-IsConsistent P storage engine now _ chain v)
  Step-IsConsistent laws {bc} (persists_chain after e) v =
      let written = persist_chain_disk P engine storage bc in
      rw (← e, written.1) (disk-IsConsistent P bc written.0 v)
  Step-IsConsistent laws (persists_block block after e) v = rw (← e) (disk-IsConsistent P _ _ v)
  Step-IsConsistent laws (sets_on_block_added callback) v = same-IsConsistent P _ _ refl refl refl v
  Step-IsConsistent laws (sets_on_block_accepted callback) v =
      same-IsConsistent P _ _ refl refl refl v
  Step-IsConsistent laws (sets_on_transaction_added callback) v =
      same-IsConsistent P _ _ refl refl refl v

  -- After any history of calls the chain is valid, the ledger is the one that the chain gives, and
  -- the mempool holds verified payments with distinct identifiers, none of them spent, if the
  -- engine, where there is one, seals as `Seals` asks.
  pub Reach-IsConsistent :
      ((e : Engine) → engine ≡ some e → Seals P e)
      → {bc : Blockchain D} → Reach bc
      → IsConsistent P bc
  Reach-IsConsistent laws (starts now fuel difficulty disk bc e) =
      construct-IsConsistent P storage engine now fuel difficulty disk bc e
  Reach-IsConsistent laws (steps r s) = Step-IsConsistent laws s (Reach-IsConsistent laws r)

  -- What a call leaves of the chain: the same chain, the chain with one more block, or another that
  -- was preferred.
  Step-chain :
      {bc after : Blockchain D}
      → Step bc after
      → (after.chain ≡ bc.chain)
        ⊎ (((b : Block) × (after.chain ≡ bc.chain ++ b ∷ []))
            ⊎ (should_replace P engine storage bc after.chain ≡ true))
  unfolding set_on_block_added set_on_block_accepted set_on_transaction_added persist_block enqueue
      append_mined append_accepted install_chain apply_to_ledger
  Step-chain {bc} (adds now tx after e) = elim (add_transaction-IsAdmissible P now bc tx) [
    | inl (ok, f) ↦ inl (rw (← e, f))
    | inr (no_entry, f) ↦ inl (rw (← e, f))
  ]
  Step-chain {bc} (mines now later fuel miner after block e) =
      elim (mine_pending_transactions_cases P engine storage now later fuel bc miner) [
        | inl out ↦ absurd (cc)
        | inr c ↦
            let same : after ≡ append_mined P engine storage (retargeted P engine storage bc) c.1 =
              cc (c.4) in
            inr (inl (c.1, rw same))
      ]
  Step-chain {bc} (accepts now block after e) =
      elim (accept_block_cases P engine storage now bc block) [
        | inl refused ↦ inl (rw (← e, refused))
        | inr c ↦ inr (inl (block, rw (← e, c.5)))
      ]
  Step-chain {bc} (replaces now chain after e) =
      elim (replace_chain_cases P engine storage now bc chain) [
        | inl refused ↦ inl (rw (← e, refused))
        | inr c ↦ inr (inr (rw (← e, c.2) (c.0)))
      ]
  Step-chain {bc} (persists_chain after e) =
      let written = persist_chain_disk P engine storage bc in inl (rw (← e, written.1))
  Step-chain (persists_block block after e) = inl (rw (← e))
  Step-chain (sets_on_block_added callback) = inl refl
  Step-chain (sets_on_block_accepted callback) = inl refl
  Step-chain (sets_on_transaction_added callback) = inl refl

  -- No call shortens the chain, if the engine prefers only longer chains.
  pub Step-length :
      ((e : Engine) (old new : List Block)
        → engine ≡ some e
        → e.should_accept_chain old new ≡ true
        → length old < length new)
      → {bc after : Blockchain D} → Step bc after
      → length bc.chain ≤ length after.chain
  Step-length longer {bc} {after} s = elim (Step-chain s) [
    | inl same ↦ rw same (omega arith)
    | inr (inl (b, grown)) ↦ rw grown (omega (arith, length-append bc.chain (b ∷ [])))
    | inr (inr preferred) ↦
        omega (arith, should_replace_longer P engine storage longer bc after.chain preferred)
  ]

  -- After any history of calls the balance of an address is the fold of its credits and debits
  -- over the transactions of the chain, from 0, if the engine, where there is one, seals as
  -- `Seals` asks.
  pub Reach-get_balance :
      ((e : Engine) → engine ≡ some e → Seals P e)
      → {bc : Blockchain D} → Reach bc
      → (a : Text)
      → get_balance bc.state_manager a
        ≡ fold_transactions (balance_after a) 0 (chain_transactions bc.chain)
  Reach-get_balance laws {bc} r a =
      let v = Reach-IsConsistent laws r in
      rw (v.ledger) (get_balance-rebuild_state empty_state bc.chain a)
