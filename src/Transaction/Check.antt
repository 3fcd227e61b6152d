-- ===== src/Transaction/Check.antt =====
-- What `Transaction::verify` and `Transaction::isExpired` (src/transaction/transaction.cpp) accept.
use personalblockchain.Prelude.{
  ℕ, ◌<◌, ◌≡◌, ◌≢◌, ◌⊎◌, inl, inr, ◌↔◌, true, false, none, some, [], ◌∷◌, Text, is_empty,
  text_eq_iff, arith, Option-cases,
}
use personalblockchain.Prelude.Int.{ℤ}
use personalblockchain.Platform.{Platform}
use personalblockchain.Crypto
use personalblockchain.Transaction.{
  Transaction, is_coinbase, build_tx_core, derive_address_v2, derive_address_legacy, verify,
  is_expired, age_seconds,
}

-- What a transaction that is no reward has to meet.
pub record IsAuthentic (P : Platform) (tx : Transaction) : Type 0 where
  pub amount_ne : tx.amount ≢ 0
  pub id_ne : tx.tx_id ≢ []
  pub signature_ne : tx.digital_signature ≢ []
  pub sender_ne : tx.sender_public_key ≢ []
  pub address :
      (tx.from_address ≡ [])
      ⊎ ((tx.from_address ≡ derive_address_v2 P tx.sender_public_key)
          ⊎ (tx.from_address ≡ derive_address_legacy P tx.sender_public_key))
  pub identity : Crypto.sha256 P (build_tx_core tx) ≡ tx.tx_id
  pub signed : Crypto.verify P tx.tx_id tx.digital_signature tx.sender_public_key ≡ true

is_empty_iff : (s : Text) → (is_empty s ≡ false) ↔ (s ≢ [])
is_empty_iff [] = ground arith
is_empty_iff (c ∷ s) = ground arith

-- A transaction passes `verify` exactly when it is a reward or authentic: a positive amount, an
-- identifier that is the hash of its fields, a sender address that is empty or derived from the
-- key, and a signature of the identifier.
pub verify-IsAuthentic :
    (P : Platform) (tx : Transaction)
    → (verify P tx ≡ true) ↔ ((is_coinbase tx ≡ true) ⊎ IsAuthentic P tx)
unfolding verify
verify-IsAuthentic P tx =
    let id = is_empty_iff tx.tx_id in
    let signature = is_empty_iff tx.digital_signature in
    let sender = is_empty_iff tx.sender_public_key in
    let from = is_empty_iff tx.from_address in
    let v2 = text_eq_iff tx.from_address (derive_address_v2 P tx.sender_public_key) in
    let legacy = text_eq_iff tx.from_address (derive_address_legacy P tx.sender_public_key) in
    let hash = text_eq_iff (Crypto.sha256 P (build_tx_core tx)) tx.tx_id in
    (λ h. ground arith, λ h. ground arith)

-- A transaction counts as expired exactly when its timestamp does not parse or lies more than the
-- window away from the clock, in the past or in the future.
is_expired_iff :
    (P : Platform) (now : ℕ) (tx : Transaction) (window : ℕ)
    → (is_expired P now tx window ≡ true) ↔ (
        (P.get_time tx.timestamp ≡ none)
        ⊎ ((t : ℤ) × (P.get_time tx.timestamp ≡ some t) × (window < age_seconds now t)))
unfolding is_expired
is_expired_iff P now tx window = elim (Option-cases (P.get_time tx.timestamp)) [
  | inl e ↦ (λ h. inl e, λ h. ground arith)
  | inr (t, e) ↦ (λ h. inr (t, e, ground arith), λ h. ground arith)
]
