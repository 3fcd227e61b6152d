-- ===== src/Network/HttpServer/Pending.antt =====
-- src/network/http_server.cpp: `walletExists`, and the sums over the mempool that
-- `handleSendTransaction` and `handleGetWalletBalance` share.
use personalblockchain.Prelude.{
  ℕ, ◌+◌, ◌-◌, ◌%◌, ◌^◌, max, Bool, not, true, false, List, [], ◌∷◌, Text, text_eq, length, ltb,
  u64_mod, if◌then◌else◌,
}
use personalblockchain.Prelude.Int.{ℤ, pos, negsuc, ◌+ℤ◌, ◌-ℤ◌}
use personalblockchain.Prelude.Map.{contains}
use personalblockchain.Transaction.{Transaction}
use personalblockchain.Blockchain.{Blockchain, get_balance_for_address, get_last_nonce_for_address}
use personalblockchain.State.{get_transactions_for_address}
use personalblockchain.Wallet.{is_valid_wallet_address}
use personalblockchain.Network.HttpServer.{HttpServer}

-- The transactions of an address, by `getTransactionsForAddress` of src/core/blockchain.cpp.
abbrev pub transactions_of : {D : Type 0} → Blockchain D → Text → List Transaction
transactions_of bc address = get_transactions_for_address bc.state_manager address

unfoldable pub wallet_exists : {J D : Type 0} → HttpServer J D → Text → Bool
wallet_exists s address =
    if not (is_valid_wallet_address address)
    then false
    else if contains address s.known_addresses
    then true
    else if ltb 0 (get_balance_for_address s.node.blockchain address)
    then true
    else ltb 0 (length (transactions_of s.node.blockchain address))

-- What the mempool sends, what it receives, and the highest nonce, for one address.
pub record Pending : Type 0 where
  pub sent : ℕ
  pub received : ℕ
  pub highest_nonce : ℕ

abbrev pub note_sent : Text → Transaction → Pending → Pending
note_sent address tx t =
    if text_eq tx.from_address address
    then record t {
      sent = (t.sent + tx.amount) % u64_mod;
      highest_nonce = max t.highest_nonce tx.nonce;
    }
    else t

abbrev pub note_received : Text → Transaction → Pending → Pending
note_received address tx t =
    if text_eq tx.to_address address
    then record t { received = (t.received + tx.amount) % u64_mod }
    else t

-- The loop over the mempool.
unfoldable pub count_pending : Text → Pending → List Transaction → Pending
count_pending address t [] = t
count_pending address t (tx ∷ txs) =
    count_pending address (note_received address tx (note_sent address tx t)) txs

unfoldable pub pending_of : {D : Type 0} → Blockchain D → Text → Pending
pending_of bc address =
    count_pending address
      (record { sent = 0; received = 0; highest_nonce = get_last_nonce_for_address bc address })
      bc.mempool

-- `static_cast<int64_t>`
abbrev to_i64 : ℕ → ℤ
to_i64 n = if ltb n (2 ^ 63) then pos n else negsuc (u64_mod - n - 1)

-- The two signed sums, which are exact where they do not overflow.
unfoldable pub pending_balance : ℕ → Pending → ℤ
pending_balance confirmed t = to_i64 confirmed +ℤ to_i64 t.received -ℤ to_i64 t.sent

unfoldable pub next_nonce : Pending → ℕ
next_nonce t = (t.highest_nonce + 1) % u64_mod
