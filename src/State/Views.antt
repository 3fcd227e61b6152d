-- ===== src/State/Views.antt =====
-- The state of src/state/state_manager.cpp after a chain, seen through one view: a fold over the
-- transactions of the chain. The first view is the balance of an address.
use personalblockchain.Prelude.{
  ℕ, ◌+◌, ◌-◌, ◌%◌, ◌≡◌, refl, sym, ◌∙◌, ap, Bool, not, ◌&&◌, List, [], ◌∷◌, ◌++◌, Text, is_empty,
  text_eq, text_eq_iff, arith, u64_mod, if◌then◌else◌,
}
use personalblockchain.Prelude.Map.{lookup, get_or, lookup-insert}
use personalblockchain.Transaction.{Transaction, is_coinbase}
use personalblockchain.Block.{Block}
use personalblockchain.State.{
  StateManager, empty_state, credit, debit, apply_transaction, apply_transactions,
  apply_block_state, apply_blocks, rebuild_state, get_balance, clear,
}

-- Who sends and who receives, for the ledger: a reward has no sender.
abbrev pub is_from : Text → Transaction → Bool
is_from a tx = not (is_coinbase tx) && not (is_empty tx.from_address) && text_eq tx.from_address a

abbrev pub is_to : Text → Transaction → Bool
is_to a tx = not (is_empty tx.to_address) && text_eq tx.to_address a

-- One address in one transaction: credited modulo 2^64, then debited down to 0 at the least.
abbrev pub balance_after : Text → ℕ → Transaction → ℕ
balance_after a balance tx =
    let credited = if is_to a tx then (balance + tx.amount) % u64_mod else balance in
    if is_from a tx then credited - tx.amount else credited

pub get_balance-credit :
    (a : Text) (s : StateManager) (tx : Transaction)
    → get_balance (credit tx s) a
      ≡ (if is_to a tx then (get_balance s a + tx.amount) % u64_mod else get_balance s a)
unfolding get_balance credit
get_balance-credit a s tx = ground (
  arith,
  text_eq_iff tx.to_address a,
  lookup-insert tx.to_address a ((get_or tx.to_address 0 s.balances + tx.amount) % u64_mod)
      s.balances,
)

get_balance-debit :
    (a : Text) (s : StateManager) (tx : Transaction)
    → get_balance (debit tx s) a
      ≡ (if is_from a tx then get_balance s a - tx.amount else get_balance s a)
unfolding get_balance debit
get_balance-debit a s tx = grind (arith, text_eq_iff, lookup-insert)

-- One transaction changes a balance as `balance_after` says, whether the address sends, receives,
-- does both or neither.
get_balance-apply_transaction :
    (a : Text) (s : StateManager) (tx : Transaction)
    → get_balance (apply_transaction s tx) a ≡ balance_after a (get_balance s a) tx
unfolding apply_transaction
get_balance-apply_transaction a s tx =
    ground (arith, get_balance-debit a (credit tx s) tx, get_balance-credit a s tx)

-- All transactions of a chain, in order.
abbrev pub chain_transactions : List Block → List Transaction
chain_transactions [] = []
chain_transactions (b ∷ bs) = b.transactions ++ chain_transactions bs

abbrev pub fold_transactions {ℓ} : {A : Type ℓ} → (A → Transaction → A) → A → List Transaction → A
fold_transactions f x [] = x
fold_transactions f x (tx ∷ txs) = fold_transactions f (f x tx) txs

apply_transactions-append :
    (s : StateManager) (xs ys : List Transaction)
    → apply_transactions s (xs ++ ys) ≡ apply_transactions (apply_transactions s xs) ys
unfolding apply_transactions
apply_transactions-append s [] ys = refl
apply_transactions-append s (tx ∷ xs) ys = apply_transactions-append (apply_transaction s tx) xs ys

apply_blocks-chain_transactions :
    (s : StateManager) (chain : List Block)
    → apply_blocks s chain ≡ apply_transactions s (chain_transactions chain)
unfolding apply_blocks apply_block_state apply_transactions
apply_blocks-chain_transactions s [] = refl
apply_blocks-chain_transactions s (b ∷ bs) =
    apply_blocks-chain_transactions (apply_transactions s b.transactions) bs
    ∙ sym (apply_transactions-append s b.transactions (chain_transactions bs))

-- A view of the state that each transaction steps is, after any chain, the fold of that step.
module _ {ℓ} {A : Type ℓ} (view : StateManager → A) (step : A → Transaction → A)
    (law : (s : StateManager) (tx : Transaction)
      → view (apply_transaction s tx) ≡ step (view s) tx) where
  view-apply_transactions :
      (s : StateManager) (txs : List Transaction)
      → view (apply_transactions s txs) ≡ fold_transactions step (view s) txs
  unfolding apply_transactions
  view-apply_transactions s [] = refl
  view-apply_transactions s (tx ∷ txs) =
      view-apply_transactions (apply_transaction s tx) txs
      ∙ ap (λ x. fold_transactions step x txs) (law s tx)

  pub view-rebuild_state :
      (s : StateManager) (chain : List Block)
      → view (rebuild_state s chain)
        ≡ fold_transactions step (view empty_state) (chain_transactions chain)
  unfolding rebuild_state clear
  view-rebuild_state s chain =
      ap view (apply_blocks-chain_transactions empty_state chain)
      ∙ view-apply_transactions empty_state (chain_transactions chain)

-- Transactions change a balance one behind the other.
pub get_balance-apply_transactions :
    (s : StateManager) (txs : List Transaction) (a : Text)
    → get_balance (apply_transactions s txs) a
      ≡ fold_transactions (balance_after a) (get_balance s a) txs
get_balance-apply_transactions s txs a =
    view-apply_transactions (λ t. get_balance t a) (balance_after a)
      (λ t tx. get_balance-apply_transaction a t tx) s txs

-- After a rebuild from any chain, whatever the state held before, the balance of an address is the
-- fold of its credits and debits over all transactions of the chain, from 0.
pub get_balance-rebuild_state :
    (s : StateManager) (chain : List Block) (a : Text)
    → get_balance (rebuild_state s chain) a
      ≡ fold_transactions (balance_after a) 0 (chain_transactions chain)
unfolding get_balance lookup
get_balance-rebuild_state s chain a =
    view-rebuild_state (λ t. get_balance t a) (balance_after a)
      (λ t tx. get_balance-apply_transaction a t tx) s chain
