-- ===== src/Blockchain/Invariant/Mempool.antt =====
-- The invariant of a node, and how the mempool part of it passes through a block
-- (src/core/blockchain.cpp).
use personalblockchain.Prelude.{
  ℕ, zero, suc, ◌≡◌, refl, Bool, true, false, not, ◌&&◌, ◌||◌, List, [], ◌∷◌, ◌++◌, Text, text_eq,
  text_eq_iff, arith, take, drop, any, all, keep, any-append, all-keep, all-drop, all-both,
  all-keep_self, any-false, any_mono, text_eq_comm,
}
use personalblockchain.Platform.{Platform}
use personalblockchain.Transaction
use personalblockchain.Transaction.{Transaction, is_coinbase}
use personalblockchain.Block.{Block}
use personalblockchain.State.{
  StateManager, empty_state, apply_transaction, apply_transactions, apply_block_state,
  rebuild_state, is_double_spend,
}
use personalblockchain.State.History.{spends, is_double_spend-apply_transaction}
use personalblockchain.Blockchain.{Blockchain, is_in_mempool, is_chain_valid, confirms}

-- A transaction that verifies and is no reward.
abbrev pub is_payment : Platform → Transaction → Bool
is_payment P tx = Transaction.verify P tx && not (is_coinbase tx)

-- No identifier stands twice.
abbrev pub AreDistinct : List Transaction → Type 0
AreDistinct [] = Unit {0}
AreDistinct (tx ∷ txs) = (is_in_mempool txs tx.tx_id ≡ false) × AreDistinct txs

abbrev pub AreUnspent : StateManager → List Transaction → Type 0
AreUnspent s txs = all (λ tx. not (is_double_spend s tx.tx_id)) txs ≡ true

pub record IsConsistent {D : Type 0} (P : Platform) (bc : Blockchain D) : Type 0 where
  pub chain_valid : is_chain_valid P bc.chain ≡ true
  pub ledger : bc.state_manager ≡ rebuild_state empty_state bc.chain
  pub payments : all (is_payment P) bc.mempool ≡ true
  pub distinct : AreDistinct bc.mempool
  pub unspent : AreUnspent bc.state_manager bc.mempool

-- A block spends the identifiers of its payments.
is_double_spend-apply_transactions :
    (id : Text) (s : StateManager) (txs : List Transaction)
    → is_double_spend (apply_transactions s txs) id ≡ (any (spends id) txs || is_double_spend s id)
unfolding apply_transactions
is_double_spend-apply_transactions id s [] = refl
is_double_spend-apply_transactions id s (tx ∷ txs) = ground (
  arith,
  is_double_spend-apply_transactions id (apply_transaction s tx) txs,
  is_double_spend-apply_transaction id s tx,
)

is_double_spend-apply_block_state :
    (id : Text) (s : StateManager) (b : Block)
    → is_double_spend (apply_block_state s b) id
      ≡ (any (spends id) b.transactions || is_double_spend s id)
unfolding apply_block_state
is_double_spend-apply_block_state id s b = is_double_spend-apply_transactions id s b.transactions

is_in_mempool-append :
    (xs ys : List Transaction) (id : Text)
    → is_in_mempool (xs ++ ys) id ≡ (is_in_mempool xs id || is_in_mempool ys id)
unfolding is_in_mempool
is_in_mempool-append xs ys id = any-append (λ tx. text_eq tx.tx_id id) xs ys

is_in_mempool_ne :
    (tx : Transaction) (xs : List Transaction) (y : Transaction)
    → is_in_mempool (xs ++ y ∷ []) tx.tx_id ≡ false
    → text_eq y.tx_id tx.tx_id ≡ false
unfolding is_in_mempool
is_in_mempool_ne tx [] y h = ground arith
is_in_mempool_ne tx (x ∷ xs) y h = ground (arith, is_in_mempool_ne tx xs y)

-- A transaction that is not there yet can go to the end.
pub AreDistinct-append :
    (xs : List Transaction) (y : Transaction)
    → AreDistinct xs
    → is_in_mempool xs y.tx_id ≡ false
    → AreDistinct (xs ++ y ∷ [])
unfolding is_in_mempool
AreDistinct-append [] y d h = (refl, tt)
AreDistinct-append (x ∷ xs) y d h = ground (
  arith,
  AreDistinct-append xs y d.1,
  any-append (λ tx. text_eq tx.tx_id x.tx_id) xs (y ∷ []),
  text_eq_iff x.tx_id y.tx_id,
  text_eq_iff y.tx_id x.tx_id,
)

any-keep :
    (p q : Transaction → Bool) (xs : List Transaction)
    → any p xs ≡ false
    → any p (keep q xs) ≡ false
any-keep p q [] h = refl
any-keep p q (x ∷ xs) h = ground (arith, any-keep p q xs)

pub AreDistinct-keep :
    (q : Transaction → Bool) (xs : List Transaction) → AreDistinct xs → AreDistinct (keep q xs)
unfolding is_in_mempool
AreDistinct-keep q [] d = tt
AreDistinct-keep q (x ∷ xs) d =
    ground (arith, AreDistinct-keep q xs d.1, any-keep (λ tx. text_eq tx.tx_id x.tx_id) q xs)

pub AreDistinct-drop : (n : ℕ) (xs : List Transaction) → AreDistinct xs → AreDistinct (drop n xs)
AreDistinct-drop zero xs d = d
AreDistinct-drop (suc n) [] d = d
AreDistinct-drop (suc n) (x ∷ xs) d = AreDistinct-drop n xs d.1

any-none : {A : Type 0} (xs : List A) → any (λ _. false) xs ≡ false
any-none [] = refl
any-none (x ∷ xs) = any-none xs

-- The front of a mempool spends nothing of what stays behind.
front_spends :
    (n : ℕ) (xs : List Transaction)
    → AreDistinct xs
    → all (λ tx. not (any (spends tx.tx_id) (take n xs))) (drop n xs) ≡ true
unfolding is_in_mempool
front_spends zero xs d = any-false (λ _. false) _ (λ a h. refl) xs (any-none xs)
front_spends (suc n) [] d = refl
front_spends (suc n) (x ∷ xs) d =
    all-both _ _ _ (λ tx other rest. ground (arith, text_eq_comm tx.tx_id x.tx_id)) (drop n xs)
      (all-drop _ n xs (
        any-false (λ tx. text_eq tx.tx_id x.tx_id) (λ tx. not (text_eq tx.tx_id x.tx_id))
          (λ tx h. rw h) xs d.0))
      (front_spends n xs d.1)

-- After a block of a reward and the front of the mempool, the rest of the mempool is unspent.
pub AreUnspent-mined :
    (s : StateManager) (b : Block) (reward : Transaction) (n : ℕ) (xs : List Transaction)
    → b.transactions ≡ reward ∷ take n xs
    → is_coinbase reward ≡ true
    → AreDistinct xs
    → AreUnspent s xs
    → AreUnspent (apply_block_state s b) (drop n xs)
AreUnspent-mined s b reward n xs e r d u =
    all-both _ _ _
      (λ tx old front. rw (is_double_spend-apply_block_state tx.tx_id s b, e) (ground arith))
      (drop n xs) (all-drop _ n xs u) (front_spends n xs d)

-- After any block, what it does not confirm of the mempool is unspent.
pub AreUnspent-accepted :
    (s : StateManager) (b : Block) (xs : List Transaction)
    → AreUnspent s xs
    → AreUnspent (apply_block_state s b) (keep (λ tx. not (confirms b tx)) xs)
AreUnspent-accepted s b xs u =
    all-both _ _ _
      (λ tx old kept. rw (is_double_spend-apply_block_state tx.tx_id s b) (
        ground (
          arith,
          any_mono (spends tx.tx_id) (λ t. text_eq t.tx_id tx.tx_id) (λ t h. ground arith)
              b.transactions,
        )))
      (keep (λ tx. not (confirms b tx)) xs) (all-keep _ (λ tx. not (confirms b tx)) xs u)
      (all-keep_self (λ tx. not (confirms b tx)) xs)
