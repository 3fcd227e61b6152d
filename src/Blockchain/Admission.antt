-- ===== src/Blockchain/Admission.antt =====
-- What `Blockchain::addTransaction` (src/core/blockchain.cpp) lets into the mempool.
use personalblockchain.Prelude.{
  ℕ, ◌+◌, ◌%◌, ◌++◌, ◌≤◌, ◌≡◌, ap, ◌↔◌, ◌⊎◌, ◌≢◌, inl, inr, true, false, List, [], ◌∷◌, Text, codes,
  text_eq, text_eq_iff, arith, length, length-take, length-append, take, u64_mod, if◌then◌else◌,
  Bool-cases,
}
use personalblockchain.Platform.{Platform}
use personalblockchain.Crypto.{sha256}
use personalblockchain.Crypto.Hex.{length-sha256}
use personalblockchain.Transaction
use personalblockchain.Transaction.{
  Transaction, is_coinbase, derive_address_v2, derive_address_legacy, is_expired,
}
use personalblockchain.State.{is_double_spend, get_balance}
use personalblockchain.Blockchain.{
  Blockchain, is_in_mempool, pending_outgoing, pending_incoming, can_afford, expected_nonce,
  enqueue, add_transaction, transaction_added,
}

-- The plain sums over a mempool, with no bound.
abbrev paid_by : Text → List Transaction → ℕ
paid_by address [] = 0
paid_by address (p ∷ ps) =
    (if text_eq p.from_address address then p.amount else 0) + paid_by address ps

abbrev paid_to : Text → List Transaction → ℕ
paid_to address [] = 0
paid_to address (p ∷ ps) =
    (if text_eq p.to_address address then p.amount else 0) + paid_to address ps

pending_outgoing-paid_by :
    (address : Text) (sum : ℕ) (ps : List Transaction)
    → pending_outgoing address (sum % u64_mod) ps ≡ (sum + paid_by address ps) % u64_mod
unfolding pending_outgoing
pending_outgoing-paid_by address sum [] = omega arith
pending_outgoing-paid_by address sum (p ∷ ps) = elim (Bool-cases (text_eq p.from_address address)) [
  | inl same ↦
      let step : (sum % u64_mod + p.amount) % u64_mod ≡ (sum + p.amount) % u64_mod = omega arith in
      let later = pending_outgoing-paid_by address (sum + p.amount) ps in
      rw (pending_outgoing, same, step, later) (omega arith)
  | inr other ↦
      let later = pending_outgoing-paid_by address sum ps in
      rw (pending_outgoing, other, later) (omega arith)
]

pending_incoming-paid_to :
    (address : Text) (sum : ℕ) (ps : List Transaction)
    → pending_incoming address (sum % u64_mod) ps ≡ (sum + paid_to address ps) % u64_mod
unfolding pending_incoming
pending_incoming-paid_to address sum [] = omega arith
pending_incoming-paid_to address sum (p ∷ ps) = elim (Bool-cases (text_eq p.to_address address)) [
  | inl same ↦
      let step : (sum % u64_mod + p.amount) % u64_mod ≡ (sum + p.amount) % u64_mod = omega arith in
      let later = pending_incoming-paid_to address (sum + p.amount) ps in
      rw (pending_incoming, same, step, later) (omega arith)
  | inr other ↦
      let later = pending_incoming-paid_to address sum ps in
      rw (pending_incoming, other, later) (omega arith)
]

verified_amount :
    (P : Platform) (tx : Transaction)
    → is_coinbase tx ≡ false
    → Transaction.verify P tx ≡ true
    → tx.amount ≢ 0
unfolding Transaction.verify
verified_amount P tx plain verified = ground arith

module _ {D : Type 0} where
  -- What has to hold of a transaction for the mempool.
  pub record IsAdmissible (P : Platform) (now : ℕ) (bc : Blockchain D) (tx : Transaction)
      : Type 0 where
    pub plain : is_coinbase tx ≡ false
    pub verified : Transaction.verify P tx ≡ true
    pub address : tx.from_address ≡ derive_address_v2 P tx.sender_public_key
    -- The confirmed balance and what the mempool pays to the sender cover what the mempool takes from
    -- it and the new amount, each sum modulo 2^64.
    pub affordable :
        paid_by tx.from_address bc.mempool % u64_mod + tx.amount
        ≤ (get_balance bc.state_manager tx.from_address + paid_to tx.from_address bc.mempool)
          % u64_mod
    pub next : tx.nonce ≡ expected_nonce bc tx.from_address
    pub fresh : is_expired P now tx 300 ≡ false
    pub unspent : is_double_spend bc.state_manager tx.tx_id ≡ false
    pub unseen : is_in_mempool bc.mempool tx.tx_id ≡ false

  -- The balance test asks that the sender's confirmed balance and what the mempool pays to it cover
  -- what the mempool already takes from it and the new amount, each sum modulo 2^64.
  pub can_afford_iff :
      (bc : Blockchain D) (tx : Transaction)
      → (can_afford bc tx ≡ true) ↔ (
          paid_by tx.from_address bc.mempool % u64_mod + tx.amount
          ≤ (get_balance bc.state_manager tx.from_address + paid_to tx.from_address bc.mempool)
            % u64_mod)
  unfolding can_afford
  can_afford_iff bc tx =
      let a = pending_incoming-paid_to tx.from_address 0 bc.mempool in
      let b = pending_outgoing-paid_by tx.from_address 0 bc.mempool in
      (λ h. ground arith, λ h. ground arith)

  -- The chain with a transaction at the end of its mempool.
  abbrev pub waiting : Blockchain D → Transaction → Blockchain D
  waiting bc tx = record bc {
    mempool = bc.mempool ++ tx ∷ [];
    chain_update_version = (bc.chain_update_version + 1) % u64_mod;
    events = if bc.on_transaction_added then bc.events ++ transaction_added tx ∷ [] else bc.events;
  }

  -- A transaction is either admissible, and then put at the end of the mempool, counted in the version
  -- and told to the callback, if there is one, and nothing else is changed, or it is not, and then
  -- refused with nothing changed.
  pub add_transaction-IsAdmissible :
      (P : Platform) (now : ℕ) (bc : Blockchain D) (tx : Transaction)
      → (IsAdmissible P now bc tx × (add_transaction P now bc tx ≡ (waiting bc tx, true)))
        ⊎ ((¬ IsAdmissible P now bc tx) × (add_transaction P now bc tx ≡ (bc, false)))
  unfolding add_transaction enqueue
  add_transaction-IsAdmissible P now bc tx =
      let address = text_eq_iff tx.from_address (derive_address_v2 P tx.sender_public_key) in
      let covered = can_afford_iff bc tx in let amount = verified_amount P tx in ground arith

length-derive_address_v2 :
    (P : Platform) (key : Text)
    → ((s : Text) → length (P.digest s) ≡ 32)
    → length (derive_address_v2 P key) ≡ 44
unfolding derive_address_v2
length-derive_address_v2 P key h = omega (
  arith,
  length-append (codes "PCN_") (take 40 (sha256 P key)),
  length-take 40 (sha256 P key),
  length-sha256 P h key,
)

-- Where SHA-256 gives 32 bytes, a transaction that names the older form of its sender's address,
-- the whole hash of the key, is refused with nothing changed.
add_transaction-legacy :
    {D : Type 0} (P : Platform) (now : ℕ) (bc : Blockchain D) (tx : Transaction)
    → ((s : Text) → length (P.digest s) ≡ 32)
    → tx.from_address ≡ derive_address_legacy P tx.sender_public_key
    → add_transaction P now bc tx ≡ (bc, false)
unfolding derive_address_legacy
add_transaction-legacy P now bc tx h legacy = elim (add_transaction-IsAdmissible P now bc tx) [
  | inr (refused, e) ↦ e
  | inl (ok, e) ↦ absurd (
      omega (
        arith,
        ap length ok.address,
        ap length legacy,
        length-derive_address_v2 P tx.sender_public_key h,
        length-sha256 P h tx.sender_public_key,
      ))
]
