-- ===== src/Network/HttpServer/Wallets.antt =====
-- src/network/http_server.cpp: the routes under /wallet that answer a POST.
use personalblockchain.Prelude.{
  ◌>>=◌, ◌||◌, not, Option, none, some, [], ◌∷◌, Text, codes, is_empty, to_lower, if◌then◌else◌,
}
use personalblockchain.Prelude.Map.{add}
use personalblockchain.Json.{Json}
use personalblockchain.Platform.{Platform}
use personalblockchain.Crypto.{KeyPair}
use personalblockchain.Wallet.{
  Challenges, is_valid_private_key_hex, is_valid_wallet_address, create_wallet, import_wallet,
  address_from_public_key, verify_private_key_login, create_login_challenge, verify_login,
}
use personalblockchain.Network.HttpServer.{HttpServer, Moment}
use personalblockchain.Network.HttpServer.Words.{trim}
use personalblockchain.Network.HttpServer.Responses.{
  HttpResponse, object_of, success, error_response, bad_request,
}

abbrev pub know : {J D : Type 0} → Text → HttpServer J D → HttpServer J D
know address s = record s { known_addresses = add address s.known_addresses }

-- Address, public key, challenge and signature.
pub record LoginRequest : Type 0 where
  pub address : Text
  pub public_key : Text
  pub challenge : Text
  pub signature : Text

module _ {J : Type 0} (json : Json J) where
  -- The private key that a body names; nothing where it is no such JSON.
  unfoldable pub read_private_key : Text → Option Text
  read_private_key body = do
    j ← json.parse body
    private_key ← json.value_text j (codes "privateKey") []
    some (to_lower (trim private_key))

  abbrev pub invalid_private_key : HttpResponse
  invalid_private_key =
      bad_request json (codes "INVALID_PRIVATE_KEY")
        (codes "Private key must be exactly 64 hexadecimal characters")

  abbrev auth_failed : Text → HttpResponse
  auth_failed message = bad_request json (codes "AUTH_FAILED") message

  abbrev unauthorized : Text → HttpResponse
  unauthorized message =
      error_response json 401 (codes "Unauthorized") (codes "AUTH_FAILED") message

  abbrev pub invalid_address : HttpResponse
  invalid_address =
      bad_request json (codes "INVALID_ADDRESS") (codes "Wallet address format is invalid")

  abbrev pub challenged : Text → HttpResponse
  challenged challenge = success json (
      object_of json
        ((codes "challenge", json.text challenge) ∷ (codes "expiresInSec", json.number 300) ∷ []))

  abbrev pub read_challenge_request : Text → Option (Text × Text)
  read_challenge_request body = do
    j ← json.parse body
    address ← json.value_text j (codes "address") []
    public_key ← json.value_text j (codes "publicKey") []
    some (address, public_key)

  unfoldable pub read_login_request : Text → Option LoginRequest
  read_login_request body = do
    j ← json.parse body
    address ← json.value_text j (codes "address") []
    public_key ← json.value_text j (codes "publicKey") []
    challenge ← json.value_text j (codes "challenge") []
    signature ← json.value_text j (codes "signature") []
    some (record {
      address = address;
      public_key = public_key;
      challenge = challenge;
      signature = signature;
    })

abbrev pub wallet_created : {J : Type 0} → Json J → Platform → KeyPair → J
wallet_created json P wallet = object_of json (
    (codes "publicKey", json.text wallet.public_key)
    ∷ (codes "privateKey", json.text wallet.private_key)
    ∷ (codes "address", json.text (address_from_public_key P wallet.public_key))
    ∷ (codes "message", json.text (codes "Wallet created. Save your private key locally."))
    ∷ [])

module _ {J : Type 0} {D : Type 0} (json : Json J) (P : Platform) (m : Moment) where
  unfoldable pub handle_create_wallet : HttpServer J D → HttpServer J D × HttpResponse
  handle_create_wallet s = elim (create_wallet m.key_pair) [
    | none ↦ (
      s,
      error_response json 500 (codes "Internal Server Error") (codes "WALLET_CREATE_FAILED") m.what,
    )
    | some wallet ↦ (
      know (address_from_public_key P wallet.public_key) s,
      success json (wallet_created json P wallet),
    )
  ]

  unfoldable pub handle_import_wallet : Text → HttpServer J D → HttpServer J D × HttpResponse
  handle_import_wallet body s = elim (read_private_key json body) [
    | none ↦ (s, bad_request json (codes "WALLET_IMPORT_FAILED") m.what)
    | some private_key ↦
        if not (is_valid_private_key_hex private_key)
        then (s, invalid_private_key json)
        else elim (import_wallet P private_key) [
          | none ↦ (s, bad_request json (codes "WALLET_IMPORT_FAILED") m.what)
          | some wallet ↦
              let address = address_from_public_key P wallet.public_key in
              (
                know address s,
                success json (
                    object_of json (
                      (codes "publicKey", json.text wallet.public_key)
                      ∷ (codes "address", json.text address)
                      ∷ (codes "message", json.text (codes "Wallet imported"))
                      ∷ [])),
              )
        ]
  ]

  unfoldable pub handle_wallet_login : Text → HttpServer J D → HttpServer J D × HttpResponse
  handle_wallet_login body s = elim (read_private_key json body) [
    | none ↦ (s, auth_failed json m.what)
    | some private_key ↦
        if not (is_valid_private_key_hex private_key)
        then (s, invalid_private_key json)
        else elim (verify_private_key_login P m.clock.system private_key) [
          | none ↦ (s, auth_failed json m.what)
          | some none ↦ (s, unauthorized json (codes "Private key verification failed"))
          | some (some login) ↦ (
            know login.address s,
            success json (
                object_of json (
                  (codes "address", json.text login.address)
                  ∷ (codes "publicKey", json.text login.public_key)
                  ∷ (codes "token", json.text login.token)
                  ∷ (codes "message", json.text (codes "Wallet authenticated"))
                  ∷ [])),
          )
        ]
  ]

  unfoldable pub handle_login_challenge : Text → HttpServer J D → HttpServer J D × HttpResponse
  handle_login_challenge body s = elim (read_challenge_request json body) [
    | none ↦ (s, auth_failed json m.what)
    | some (address, public_key) ↦
        if is_empty address || is_empty public_key
        then (s, auth_failed json (codes "address and publicKey are required"))
        else if not (is_valid_wallet_address address)
        then (s, invalid_address json)
        else elim (create_login_challenge P m.clock.system m.random_challenge address public_key
            s.challenges) [
              | none ↦ (s, auth_failed json m.what)
              | some (challenges, challenge) ↦
                  (record s { challenges = challenges }, challenged json challenge)
            ]
  ]

  abbrev granted : Text → Challenges × Option Text → HttpServer J D → HttpServer J D × HttpResponse
  granted address (challenges, none) s = (
    record s { challenges = challenges },
    unauthorized json (codes "Invalid login signature or expired challenge"),
  )
  granted address (challenges, some token) s = (
    know address (record s { challenges = challenges }),
    success json (
        object_of json
          ((codes "address", json.text address) ∷ (codes "token", json.text token) ∷ [])),
  )

  -- What is done with a login that was read.
  unfoldable pub take_login : LoginRequest → HttpServer J D → HttpServer J D × HttpResponse
  take_login r s =
      if is_empty r.address || is_empty r.public_key || is_empty r.challenge || is_empty r.signature
      then (s, auth_failed json (codes "address, publicKey, challenge, signature are required"))
      else if not (is_valid_wallet_address r.address)
      then (s, invalid_address json)
      else granted r.address
          (verify_login P m.clock.system r.address r.public_key r.challenge r.signature
            s.challenges)
          s

  unfoldable pub handle_verify_login : Text → HttpServer J D → HttpServer J D × HttpResponse
  handle_verify_login body s = elim (read_login_request json body) [
    | none ↦ (s, auth_failed json m.what)
    | some r ↦ take_login r s
  ]
