-- ===== src/State/History.antt =====
-- Nonces, histories and spent identifiers of src/state/state_manager.cpp after a chain.
use personalblockchain.Prelude.{
  ℕ, max, ◌≡◌, refl, ◌∙◌, Bool, false, not, ◌&&◌, ◌||◌, List, [], ◌∷◌, ◌++◌, Text, text_eq,
  text_eq_iff, arith, if◌then◌else◌, any,
}
use personalblockchain.Prelude.Map.{lookup, lookup-insert, contains, contains-add}
use personalblockchain.Transaction.{Transaction, is_coinbase}
use personalblockchain.Block.{Block}
use personalblockchain.State.{
  StateManager, credit, debit, apply_transaction, rebuild_state, is_double_spend, get_last_nonce,
  get_transactions_for_address,
}
use personalblockchain.State.Views.{
  is_from, is_to, chain_transactions, fold_transactions, view-rebuild_state,
}

-- The largest nonce that an address has sent.
abbrev nonce_after : Text → ℕ → Transaction → ℕ
nonce_after a n tx = if is_from a tx then max n tx.nonce else n

get_last_nonce-apply_transaction :
    (a : Text) (s : StateManager) (tx : Transaction)
    → get_last_nonce (apply_transaction s tx) a ≡ nonce_after a (get_last_nonce s a) tx
unfolding get_last_nonce apply_transaction
get_last_nonce-apply_transaction a s tx = grind (arith, text_eq_iff, lookup-insert)

-- After a rebuild the last nonce of an address is the largest nonce among the transactions of the
-- chain that it sent, and 0 if it sent none.
get_last_nonce-rebuild_state :
    (s : StateManager) (chain : List Block) (a : Text)
    → get_last_nonce (rebuild_state s chain) a
      ≡ fold_transactions (nonce_after a) 0 (chain_transactions chain)
unfolding get_last_nonce lookup
get_last_nonce-rebuild_state s chain a =
    view-rebuild_state (λ t. get_last_nonce t a) (nonce_after a)
      (λ t tx. get_last_nonce-apply_transaction a t tx) s chain

-- A receipt is noted before a payment, so a transfer to oneself is noted twice.
abbrev history_after : Text → List Transaction → Transaction → List Transaction
history_after a h tx =
    let received = if is_to a tx then h ++ tx ∷ [] else h in
    if is_from a tx then received ++ tx ∷ [] else received

history-credit :
    (a : Text) (s : StateManager) (tx : Transaction)
    → get_transactions_for_address (credit tx s) a ≡ (
        if is_to a tx
        then get_transactions_for_address s a ++ tx ∷ []
        else get_transactions_for_address s a)
unfolding get_transactions_for_address credit
history-credit a s tx = grind (arith, text_eq_iff, lookup-insert)

history-debit :
    (a : Text) (s : StateManager) (tx : Transaction)
    → get_transactions_for_address (debit tx s) a ≡ (
        if is_from a tx
        then get_transactions_for_address s a ++ tx ∷ []
        else get_transactions_for_address s a)
unfolding get_transactions_for_address debit
history-debit a s tx = grind (arith, text_eq_iff, lookup-insert)

history-apply_transaction :
    (a : Text) (s : StateManager) (tx : Transaction)
    → get_transactions_for_address (apply_transaction s tx) a
      ≡ history_after a (get_transactions_for_address s a) tx
unfolding apply_transaction
history-apply_transaction a s tx =
    ground (arith, history-debit a (credit tx s) tx, history-credit a s tx)

-- After a rebuild the history of an address lists the transactions of the chain that it received or
-- sent, in the order of the chain, one to itself twice.
history-rebuild_state :
    (s : StateManager) (chain : List Block) (a : Text)
    → get_transactions_for_address (rebuild_state s chain) a
      ≡ fold_transactions (history_after a) [] (chain_transactions chain)
unfolding get_transactions_for_address lookup
history-rebuild_state s chain a =
    view-rebuild_state (λ t. get_transactions_for_address t a) (history_after a)
      (λ t tx. history-apply_transaction a t tx) s chain

-- The identifier belongs to a transaction that is no reward.
abbrev pub spends : Text → Transaction → Bool
spends id tx = not (is_coinbase tx) && text_eq tx.tx_id id

pub is_double_spend-apply_transaction :
    (id : Text) (s : StateManager) (tx : Transaction)
    → is_double_spend (apply_transaction s tx) id ≡ (spends id tx || is_double_spend s id)
unfolding is_double_spend apply_transaction
is_double_spend-apply_transaction id s tx = grind (arith, contains-add)

fold-any :
    (p : Transaction → Bool) (b : Bool) (txs : List Transaction)
    → fold_transactions (λ x tx. p tx || x) b txs ≡ (any p txs || b)
fold-any p b [] = refl
fold-any p b (tx ∷ txs) = ground (arith, fold-any p (p tx || b) txs)

-- After a rebuild an identifier counts as spent exactly when some transaction of the chain that is
-- no reward has it.
is_double_spend-rebuild_state :
    (s : StateManager) (chain : List Block) (id : Text)
    → is_double_spend (rebuild_state s chain) id ≡ any (spends id) (chain_transactions chain)
unfolding is_double_spend contains
is_double_spend-rebuild_state s chain id =
    view-rebuild_state (λ t. is_double_spend t id) (λ x tx. spends id tx || x)
      (λ t tx. is_double_spend-apply_transaction id t tx) s chain
    ∙ fold-any (spends id) false (chain_transactions chain)
    ∙ ground arith
