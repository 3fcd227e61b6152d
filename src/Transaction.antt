-- ===== src/Transaction.antt =====
-- src/transaction/transaction.cpp and include/transaction/transaction.h: the fields, the
-- identifier, the signature check and the age check. The clock is an argument, in nanoseconds
-- since 1970.
pub mod Check
pub mod Identity
pub mod Serial
use personalblockchain.Prelude.{
  ℕ, suc, ◌+◌, ◌-◌, ◌*◌, ◌/◌, Bool, true, false, not, ◌&&◌, ◌||◌, Option, none, some, ◌∷◌, ◌++◌,
  Text, codes, decimal, is_empty, text_eq, take, ltb, leb, ◌==◌, if◌then◌else◌,
}
use personalblockchain.Prelude.Int.{ℤ, pos, negsuc}
use personalblockchain.Platform.{Platform}
use personalblockchain.Crypto

pub record Transaction : Type 0 where
  pub tx_id : Text
  pub sender_public_key : Text
  pub receiver_public_key : Text
  pub from_address : Text
  pub to_address : Text
  pub amount : ℕ
  pub nonce : ℕ
  pub payload : Text
  pub timestamp : Text
  pub digital_signature : Text

abbrev pub coinbase_key : Text
coinbase_key = codes "COINBASE"

-- A transaction as the default constructor leaves it.
abbrev pub empty_transaction : Transaction
empty_transaction = record {
  tx_id = codes "";
  sender_public_key = codes "";
  receiver_public_key = codes "";
  from_address = codes "";
  to_address = codes "";
  amount = 0;
  nonce = 0;
  payload = codes "";
  timestamp = codes "";
  digital_signature = codes "";
}

unfoldable pub is_coinbase : Transaction → Bool
is_coinbase tx = text_eq tx.sender_public_key coinbase_key

-- The fields that the identifier covers, joined by '|'.
unfoldable pub build_tx_core : Transaction → Text
build_tx_core tx =
    tx.sender_public_key
    ++ b'|'
      ∷ (tx.receiver_public_key
          ++ b'|'
            ∷ (tx.from_address
                ++ b'|'
                  ∷ (tx.to_address
                      ++ b'|'
                        ∷ (decimal tx.amount
                            ++ b'|'
                              ∷ (decimal tx.nonce ++ b'|' ∷ (tx.payload ++ b'|' ∷ tx.timestamp))))))

-- |now - time| in whole seconds, rounded down as `duration_cast` rounds towards zero.
unfoldable pub age_seconds : ℕ → ℤ → ℕ
age_seconds now (pos s) =
    let t = s * 1_000_000_000 in (if leb t now then now - t else t - now) / 1_000_000_000
age_seconds now (negsuc n) = (now + suc n * 1_000_000_000) / 1_000_000_000

module _ (P : Platform) where
  unfoldable pub derive_address_v2 : Text → Text
  derive_address_v2 public_key = codes "PCN_" ++ take 40 (Crypto.sha256 P public_key)

  unfoldable pub derive_address_legacy : Text → Text
  derive_address_legacy public_key = Crypto.sha256 P public_key

  unfoldable pub compute_tx_id : Transaction → Transaction
  compute_tx_id tx = record tx { tx_id = Crypto.sha256 P (build_tx_core tx) }

  -- Nothing where `crypto::sign` throws.
  unfoldable pub sign : Transaction → Text → Option Transaction
  sign tx private_key =
      let named = if is_empty tx.tx_id then compute_tx_id tx else tx in
      elim (Crypto.sign P named.tx_id private_key) [
        | none ↦ none
        | some sig ↦ some (record named { digital_signature = sig })
      ]

  unfoldable pub verify : Transaction → Bool
  verify tx =
      if is_coinbase tx
      then true
      else if tx.amount == 0
      then false
      else if is_empty tx.tx_id || is_empty tx.digital_signature || is_empty tx.sender_public_key
      then false
      else if not (is_empty tx.from_address)
          && not (text_eq tx.from_address (derive_address_v2 tx.sender_public_key))
          && not (text_eq tx.from_address (derive_address_legacy tx.sender_public_key))
      then false
      else if not (text_eq (Crypto.sha256 P (build_tx_core tx)) tx.tx_id)
      then false
      else Crypto.verify P tx.tx_id tx.digital_signature tx.sender_public_key

  -- A timestamp that does not parse counts as expired.
  unfoldable pub is_expired : ℕ → Transaction → ℕ → Bool
  is_expired now tx window_seconds = elim (P.get_time tx.timestamp) [
    | none ↦ true
    | some time ↦ ltb window_seconds (age_seconds now time)
  ]

  unfoldable pub current_timestamp : ℕ → Text
  current_timestamp now = P.put_time (now / 1_000_000_000)
