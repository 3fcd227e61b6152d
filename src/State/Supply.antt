-- ===== src/State/Supply.antt =====
-- The sum of all balances of src/state/state_manager.cpp: what a transaction does to it.
use personalblockchain.Prelude.{
  ℕ, ◌+◌, ◌-◌, ◌%◌, ◌≤◌, ◌<◌, ◌≡◌, ◌≢◌, text_eq_iff, ◌⊎◌, true, false, ◌||◌, List, [], ◌∷◌, Text,
  is_empty, arith, u64_mod, if◌then◌else◌, inl, inr, Option-cases, min,
}
use personalblockchain.Prelude.Map.{Map, lookup, get_or}
use personalblockchain.Prelude.Map.Sorted.{IsSorted, insert-IsSorted, total, total-insert}
use personalblockchain.Transaction.{Transaction, is_coinbase}
use personalblockchain.State.{
  StateManager, credit, debit_balance, debit, apply_transaction, apply_transactions, get_balance,
}
use personalblockchain.State.Views.{get_balance-credit}

-- The balances are kept in the order of their keys.
abbrev IsOrdered : StateManager → Type 0
IsOrdered s = IsSorted s.balances

abbrev pub supply : StateManager → ℕ
supply s = total s.balances

credit-IsOrdered : (tx : Transaction) (s : StateManager) → IsOrdered s → IsOrdered (credit tx s)
unfolding credit
credit-IsOrdered tx s o = ground (
  arith,
  insert-IsSorted tx.to_address ((get_or tx.to_address 0 s.balances + tx.amount) % u64_mod)
      s.balances o,
)

debit_balance-IsSorted :
    (a : Text) (n : ℕ) (m : Map ℕ) → IsSorted m → IsSorted (debit_balance a n m)
unfolding debit_balance
debit_balance-IsSorted a n m o = elim (Option-cases (lookup a m)) [
  | inl missing ↦ rw (missing, debit_balance) o
  | inr (b, found) ↦ rw (found, debit_balance) (insert-IsSorted a _ m o)
]

debit-IsOrdered : (tx : Transaction) (s : StateManager) → IsOrdered s → IsOrdered (debit tx s)
unfolding debit
debit-IsOrdered tx s o =
    ground (arith, debit_balance-IsSorted tx.from_address tx.amount s.balances o)

apply_transactions-IsOrdered :
    (s : StateManager) (txs : List Transaction) → IsOrdered s → IsOrdered (apply_transactions s txs)
unfolding apply_transactions apply_transaction
apply_transactions-IsOrdered s [] o = o
apply_transactions-IsOrdered s (tx ∷ txs) o =
    apply_transactions-IsOrdered (apply_transaction s tx) txs
      (debit-IsOrdered tx (credit tx s) (credit-IsOrdered tx s o))

-- What a transaction adds for its receiver, and what its sender gives up.
abbrev pub credited : Transaction → ℕ
credited tx = if is_empty tx.to_address then 0 else tx.amount

abbrev pub debited : StateManager → Transaction → ℕ
debited s tx =
    if is_coinbase tx || is_empty tx.from_address
    then 0
    else min tx.amount (get_balance (credit tx s) tx.from_address)

supply-credit :
    (tx : Transaction) (s : StateManager)
    → IsOrdered s
    → get_balance s tx.to_address + tx.amount < u64_mod
    → supply (credit tx s) ≡ supply s + credited tx
unfolding credit get_balance
supply-credit tx s o h =
    ground (
      arith,
      total-insert tx.to_address (get_or tx.to_address 0 s.balances + tx.amount) s.balances o,
    )

total-debit_balance :
    (a : Text) (n : ℕ) (m : Map ℕ)
    → IsSorted m
    → total (debit_balance a n m) + min n (get_or a 0 m) ≡ total m
unfolding debit_balance
total-debit_balance a n m o = elim (Option-cases (lookup a m)) [
  | inl missing ↦ ground arith
  | inr (b, found) ↦ ground (arith, total-insert a (b - n) m o, total-insert a 0 m o)
]

supply-debit :
    (tx : Transaction) (s : StateManager)
    → IsOrdered (credit tx s)
    → supply (debit tx (credit tx s)) + debited s tx ≡ supply (credit tx s)
unfolding debit get_balance
supply-debit tx s o =
    ground (arith, total-debit_balance tx.from_address tx.amount (credit tx s).balances o)

-- Where the receiver's balance does not wrap, a transaction changes the sum of all balances by what
-- it credits less what the sender can give up, which is less than the amount if the sender's
-- balance is.
supply-apply_transaction :
    (s : StateManager) (tx : Transaction)
    → IsOrdered s
    → get_balance s tx.to_address + tx.amount < u64_mod
    → supply (apply_transaction s tx) + debited s tx ≡ supply s + credited tx
unfolding apply_transaction
supply-apply_transaction s tx o h =
    omega (arith, supply-debit tx s (credit-IsOrdered tx s o), supply-credit tx s o h)

-- What the rewards among the transactions bring into being.
abbrev pub minted : List Transaction → ℕ
minted [] = 0
minted (tx ∷ txs) = (if is_coinbase tx then credited tx else 0) + minted txs

-- Every transaction in turn has room at its receiver and is a reward, or names both addresses and
-- finds the amount on its sender's balance.
abbrev pub IsCovered : StateManager → List Transaction → Type 0
IsCovered s [] = Unit {0}
IsCovered s (tx ∷ txs) =
    (get_balance s tx.to_address + tx.amount < u64_mod)
    × ((is_coinbase tx ≡ true)
        ⊎ ((is_empty tx.to_address ≡ false)
            × (is_empty tx.from_address ≡ false)
            × (tx.amount ≤ get_balance (credit tx s) tx.from_address)))
    × IsCovered (apply_transaction s tx) txs

covered_step :
    (s : StateManager) (tx : Transaction)
    → IsOrdered s
    → IsCovered s (tx ∷ [])
    → supply (apply_transaction s tx) ≡ supply s + (if is_coinbase tx then credited tx else 0)
covered_step s tx o c = ground (arith, supply-apply_transaction s tx o c.0)

-- Over balances in the order of their keys, transactions of which each in turn finds room at its
-- receiver, and is a reward or names both addresses and is covered by its sender's balance,
-- neither create nor destroy money: the sum of all balances grows by exactly what the rewards
-- among them bring.
pub supply-apply_transactions :
    (s : StateManager) (txs : List Transaction)
    → IsOrdered s
    → IsCovered s txs
    → supply (apply_transactions s txs) ≡ supply s + minted txs
unfolding apply_transactions
supply-apply_transactions s [] o c = omega arith
supply-apply_transactions s (tx ∷ txs) o c = omega (
  arith,
  covered_step s tx o (c.0, c.1, tt),
  supply-apply_transactions (apply_transaction s tx) txs
      (apply_transactions-IsOrdered s (tx ∷ []) o) c.2,
)

-- Over balances in the order of their keys, the sum of all balances grows with a payment that is
-- no reward, names a receiver other than its sender with room for it, and is above the balance of
-- its sender: the ledger does not refuse it.
pub supply-overspent :
    (s : StateManager) (tx : Transaction)
    → IsOrdered s
    → is_coinbase tx ≡ false
    → is_empty tx.to_address ≡ false
    → tx.to_address ≢ tx.from_address
    → get_balance s tx.to_address + tx.amount < u64_mod
    → get_balance s tx.from_address < tx.amount
    → supply s < supply (apply_transaction s tx)
supply-overspent s tx o plain named other room short =
    let differs = text_eq_iff tx.to_address tx.from_address in
    ground (arith, get_balance-credit tx.from_address s tx, supply-apply_transaction s tx o room)
