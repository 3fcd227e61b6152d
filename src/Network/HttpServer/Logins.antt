-- ===== src/Network/HttpServer/Logins.antt =====
-- src/network/http_server.cpp and src/wallet: logging in over HTTP.
use personalblockchain.Prelude.{
  ℕ, ◌+◌, ◌*◌, ◌≤◌, ◌≡◌, ◌≢◌, ◌∙◌, ap, refl, true, false, some, [], ◌∷◌, Text, codes, is_empty,
  length, text_eq_refl, to_lower, arith, ◌==◌,
}
use personalblockchain.Prelude.Map.{insert, lookup-insert_self, contains, add, contains-add}
use personalblockchain.Network.HttpServer.Pending.{wallet_exists}
use personalblockchain.Network.HttpServer.Views.{handle_get_wallet_balance}
use personalblockchain.Platform.{Platform}
use personalblockchain.Json.{Json}
use personalblockchain.Crypto.{sign, generate_key_pair}
use personalblockchain.Crypto.Hex.{IsSound, verify-sign, sign-ne}
use personalblockchain.Wallet.{
  ChallengeRecord, is_valid_private_key_hex, is_valid_wallet_address, address_from_public_key,
  create_login_challenge, create_wallet, token, verify_login,
}
use personalblockchain.Wallet.Logins.{verify_login_iff}
use personalblockchain.Wallet.Addresses.{address_from_public_key-is_valid, is_valid-is_empty}
use personalblockchain.Network.HttpServer.{HttpServer, Moment}
use personalblockchain.Network.HttpServer.Responses.{HttpResponse, object_of, success}
use personalblockchain.Network.HttpServer.Wallets.{
  LoginRequest, read_private_key, read_challenge_request, read_login_request, handle_wallet_login,
  handle_import_wallet, handle_login_challenge, take_login, handle_verify_login,
  invalid_private_key, challenged, wallet_created, handle_create_wallet,
}

-- What `createLoginChallenge` keeps.
abbrev opened : ℕ → Text → Text → ChallengeRecord
opened now address public_key = record {
  address = address;
  public_key = public_key;
  expires_at = now + 5 * 60 * 1_000_000_000;
}

-- The answer to a login.
abbrev pub logged_in : {J : Type 0} → Json J → Platform → ℕ → Text → HttpResponse
logged_in json P now address = success json (
    object_of json (
      (codes "address", json.text address) ∷ (codes "token", json.text (token P now address)) ∷ []))

length-to_lower : (s : Text) → length (to_lower s) ≡ length s
unfolding to_lower
length-to_lower [] = refl
length-to_lower (c ∷ s) = omega (arith, length-to_lower s)

ne-is_empty : (s : Text) → s ≢ [] → is_empty s ≡ false
ne-is_empty [] ne = absurd (ne refl)
ne-is_empty (c ∷ s) ne = refl

module _ {J : Type 0} {D : Type 0} (json : Json J) (P : Platform) where
  handle_login_challenge-opened :
      (m : Moment) (body public_key : Text) (s : HttpServer J D)
      → read_challenge_request json body ≡ some (address_from_public_key P public_key, public_key)
      → is_empty public_key ≡ false
      → is_valid_wallet_address (address_from_public_key P public_key) ≡ true
      → handle_login_challenge json P m body s ≡ (
        record s {
          challenges =
              insert m.random_challenge
                (opened m.clock.system (address_from_public_key P public_key) public_key)
                s.challenges;
        },
        challenged json m.random_challenge,
      )
  unfolding handle_login_challenge create_login_challenge
  handle_login_challenge-opened m body public_key s read given valid =
      let address = address_from_public_key P public_key in
      rw
        (
          handle_login_challenge,
          read,
          is_valid-is_empty address valid,
          given,
          valid,
          create_login_challenge,
          text_eq_refl address,
        )
        refl

  take_login-granted :
      (m : Moment) (r : LoginRequest) (s : HttpServer J D)
      → is_empty r.public_key ≡ false
      → is_empty r.challenge ≡ false
      → is_empty r.signature ≡ false
      → is_valid_wallet_address r.address ≡ true
      → (verify_login P m.clock.system r.address r.public_key r.challenge r.signature
          s.challenges).1
        ≡ some (token P m.clock.system r.address)
      → (take_login json P m r s).1 ≡ logged_in json P m.clock.system r.address
  unfolding take_login
  take_login-granted m r s key challenge signature valid granted =
      rw (take_login, is_valid-is_empty r.address valid, key, challenge, signature, valid, granted)
        refl

  -- Who asks for a challenge over HTTP and sends back its signature within five minutes is logged in,
  -- if OpenSSL is sound for the pair of keys.
  pub handle_verify_login-signed :
      (m later : Moment) (ask answer private_key public_key sig : Text) (s : HttpServer J D)
      → IsSound P private_key public_key
      → is_empty public_key ≡ false
      → is_empty m.random_challenge ≡ false
      → sign P m.random_challenge private_key ≡ some sig
      → read_challenge_request json ask ≡ some (address_from_public_key P public_key, public_key)
      → read_login_request json answer
        ≡ some (record {
          address = address_from_public_key P public_key;
          public_key = public_key;
          challenge = m.random_challenge;
          signature = sig;
        })
      → later.clock.system ≤ m.clock.system + 5 * 60 * 1_000_000_000
      → (handle_verify_login json P later answer (handle_login_challenge json P m ask s).0).1
        ≡ logged_in json P later.clock.system (address_from_public_key P public_key)
  unfolding handle_verify_login
  handle_verify_login-signed m later ask answer private_key public_key sig s sound given random
        signed asked answered soon =
      let address = address_from_public_key P public_key in
      let valid =
        address_from_public_key-is_valid P sound.digest_length sound.digest_bytes public_key in
      let r : LoginRequest = record {
        address = address;
        public_key = public_key;
        challenge = m.random_challenge;
        signature = sig;
      } in
      let record_of = opened m.clock.system address public_key in
      let waiting : HttpServer J D = record s {
        challenges = insert m.random_challenge record_of s.challenges;
      } in
      let accepted =
        (verify_login_iff P later.clock.system address public_key m.random_challenge sig
            waiting.challenges).1
          (
            record_of,
            lookup-insert_self m.random_challenge record_of s.challenges,
            record {
              in_time = soon;
              same_address = refl;
              same_key = refl;
              derived = refl;
              signed = verify-sign P private_key public_key m.random_challenge sig sound signed;
            },
          ) in
      ap (λ asked_for. (handle_verify_login json P later answer asked_for.0).1)
        (handle_login_challenge-opened m ask public_key s asked given valid)
      ∙ rw (handle_verify_login, answered)
          (take_login-granted later r waiting given random
            (ne-is_empty sig (sign-ne P private_key public_key m.random_challenge sig sound signed))
            valid accepted)

  -- A wallet whose private key OpenSSL writes with other than 64 digits is created, but can neither be
  -- logged into nor imported with the key that the answer names.
  pub handle_create_wallet-short :
      (m later : Moment) (private_hex public_hex body : Text) (s : HttpServer J D)
      → m.key_pair ≡ some (private_hex, public_hex)
      → length private_hex ≢ 64
      → read_private_key json body ≡ some (to_lower private_hex)
      → ((handle_create_wallet json P m s).1
          ≡ success json (
              wallet_created json P
                (record { private_key = to_lower private_hex; public_key = to_lower public_hex })))
        × ((handle_wallet_login json P later body (handle_create_wallet json P m s).0).1
            ≡ invalid_private_key json)
        × ((handle_import_wallet json P later body (handle_create_wallet json P m s).0).1
            ≡ invalid_private_key json)
  unfolding handle_wallet_login handle_import_wallet handle_create_wallet is_valid_private_key_hex
      create_wallet generate_key_pair
  handle_create_wallet-short m later private_hex public_hex body s drawn short read =
      let size = length-to_lower private_hex in
      let differ : (length (to_lower private_hex) == 64) ≡ false = ground arith in
      (
        rw (handle_create_wallet, create_wallet, generate_key_pair, drawn) refl,
        rw (handle_wallet_login, read, differ) refl,
        rw (handle_import_wallet, read, differ) refl,
      )

  -- Once anyone has asked for the balance of an address of the right form, a payment to it passes the
  -- test that its wallet exists.
  pub handle_get_wallet_balance-wallet_exists :
      (address : Text) (s : HttpServer J D)
      → is_valid_wallet_address address ≡ true
      → wallet_exists (handle_get_wallet_balance json address s).0 address ≡ true
  unfolding handle_get_wallet_balance wallet_exists
  handle_get_wallet_balance-wallet_exists address s valid =
      let here : contains address (add address s.known_addresses) ≡ true =
        rw (contains-add, text_eq_refl address) refl in
      rw (handle_get_wallet_balance, valid, wallet_exists, here) refl
