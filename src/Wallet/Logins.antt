-- ===== src/Wallet/Logins.antt =====
-- What a login proves (src/wallet/wallet_manager.cpp).
use personalblockchain.Prelude.{
  ℕ, ◌+◌, ◌*◌, ◌≤◌, ◌≡◌, ◌↔◌, ◌⊎◌, refl, sym, ap, ◌∙◌, subst, true, false, none, some, inl, inr, [],
  Text, text_eq, text_eq_iff, ltb, arith, Bool-cases, Option-cases,
}
use personalblockchain.Prelude.Map.{lookup, insert, erase}
use personalblockchain.Prelude.Map.Sorted.{
  IsSorted, insert-IsSorted, erase-IsSorted, lookup-erase_self,
}
use personalblockchain.Platform.{Platform}
use personalblockchain.Crypto.{verify}
use personalblockchain.Wallet.{
  ChallengeRecord, Challenges, address_from_public_key, create_login_challenge, token, verify_login,
}

module _ (P : Platform) where
  -- What a login asks of the record of its challenge.
  pub record IsGranted (now : ℕ) (address public_key challenge signature_hex : Text)
      (r : ChallengeRecord) : Type 0 where
    pub in_time : now ≤ r.expires_at
    pub same_address : r.address ≡ address
    pub same_key : r.public_key ≡ public_key
    pub derived : address_from_public_key P public_key ≡ address
    pub signed : verify P challenge signature_hex public_key ≡ true

  -- A login gives a token exactly when the challenge is open, has not expired, was made for the
  -- address and the key, the address is that of the key, and the signature of the challenge verifies
  -- under the key.
  pub verify_login_iff :
      (now : ℕ) (address public_key challenge signature_hex : Text) (store : Challenges)
      → ((verify_login P now address public_key challenge signature_hex store).1
          ≡ some (token P now address))
        ↔ ((r : ChallengeRecord) × (lookup challenge store ≡ some r)
            × IsGranted now address public_key challenge signature_hex r)
  unfolding verify_login
  verify_login_iff now address public_key challenge signature_hex store = (
    λ h. elim (Option-cases (lookup challenge store)) [
      | inl unknown ↦ absurd (ground arith)
      | inr (r, known) ↦ (
        r,
        known,
        record {
          in_time = ground arith;
          same_address = (text_eq_iff r.address address).0 (ground arith);
          same_key = (text_eq_iff r.public_key public_key).0 (ground arith);
          derived = (text_eq_iff (address_from_public_key P public_key) address).0 (ground arith);
          signed = ground arith;
        },
      )
    ],
    λ (r, known, g).
        let in_time = g.in_time in
        let late : ltb r.expires_at now ≡ false = ground arith in
        rw
          (
            known,
            verify_login,
            late,
            (text_eq_iff r.address address).1 g.same_address,
            (text_eq_iff r.public_key public_key).1 g.same_key,
            (text_eq_iff (address_from_public_key P public_key) address).1 g.derived,
            g.signed,
          )
          refl,
  )

  -- A history of the calls on the open challenges.
  pub data Reach : Challenges → Type 0 where
    starts : Reach []
    creates :
        {store : Challenges} (now : ℕ) (random_challenge address public_key challenge : Text)
        (after : Challenges)
        → Reach store
        → create_login_challenge P now random_challenge address public_key store
          ≡ some (after, challenge)
        → Reach after
    logs_in :
        {store : Challenges} (now : ℕ) (address public_key challenge signature_hex : Text)
        → Reach store
        → Reach (verify_login P now address public_key challenge signature_hex store).0

  -- An attempt closes its challenge.
  verify_login-erases :
      (now : ℕ) (address public_key challenge signature_hex : Text) (store : Challenges)
      → ((lookup challenge store ≡ none)
          × ((verify_login P now address public_key challenge signature_hex store).0 ≡ store))
        ⊎ ((verify_login P now address public_key challenge signature_hex store).0
            ≡ erase challenge store)
  unfolding verify_login
  verify_login-erases now address public_key challenge signature_hex store =
      elim (Option-cases (lookup challenge store)) [
        | inl unknown ↦ inl (unknown, ground arith)
        | inr (r, known) ↦ inr (ground arith)
      ]

  create_login_challenge-IsSorted :
      (now : ℕ) (random_challenge address public_key challenge : Text) (store after : Challenges)
      → IsSorted store
      → create_login_challenge P now random_challenge address public_key store
        ≡ some (after, challenge)
      → IsSorted after
  unfolding create_login_challenge
  create_login_challenge-IsSorted now random_challenge address public_key challenge store after s
        e =
      elim (Bool-cases (text_eq (address_from_public_key P public_key) address)) [
        | inl derived ↦
            let opened : ChallengeRecord = record {
              address = address;
              public_key = public_key;
              expires_at = now + 5 * 60 * 1_000_000_000;
            } in
            let made : insert random_challenge opened store ≡ after = ground arith in
            subst IsSorted made (insert-IsSorted random_challenge opened store s)
        | inr other ↦ absurd (ground arith)
      ]

  Reach-IsSorted : {store : Challenges} → Reach store → IsSorted store
  Reach-IsSorted starts = tt
  Reach-IsSorted (creates {store} now random_challenge address public_key challenge after r e) =
      create_login_challenge-IsSorted now random_challenge address public_key challenge store after
        (Reach-IsSorted r) e
  Reach-IsSorted (logs_in {store} now address public_key challenge signature_hex r) =
      let s = Reach-IsSorted r in
      elim (verify_login-erases now address public_key challenge signature_hex store) [
        | inl (unknown, same) ↦ subst IsSorted (sym same) s
        | inr erased ↦ subst IsSorted (sym erased) (erase-IsSorted challenge store s)
      ]

  verify_login-unknown :
      (now : ℕ) (address public_key challenge signature_hex : Text) (store : Challenges)
      → lookup challenge store ≡ none
      → (verify_login P now address public_key challenge signature_hex store).1 ≡ none
  unfolding verify_login
  verify_login-unknown now address public_key challenge signature_hex store h =
      rw (h, verify_login) refl

  -- A challenge serves for one attempt: after any history of calls, once a login has been tried with
  -- it, in success or in failure, the next one with the same challenge gives no token.
  pub verify_login-once :
      {store : Challenges}
      → Reach store
      → (now later : ℕ)
        (address address' public_key public_key' challenge signature signature' : Text)
      → (verify_login P later address' public_key' challenge signature'
          (verify_login P now address public_key challenge signature store).0).1
        ≡ none
  verify_login-once {store} r now later address address' public_key public_key' challenge signature
        signature' =
      verify_login-unknown later address' public_key' challenge signature' _
        (elim (verify_login-erases now address public_key challenge signature store) [
          | inl (unknown, same) ↦ ap (lookup challenge) same ∙ unknown
          | inr erased ↦
              ap (lookup challenge) erased ∙ lookup-erase_self challenge store (Reach-IsSorted r)
        ])
