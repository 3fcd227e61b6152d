-- ===== src/Wallet.antt =====
-- src/wallet/wallet.cpp, src/wallet/wallet_manager.cpp and their headers: key pairs, addresses, and
-- logins with a key or a challenge. The random challenge and what OpenSSL draws are arguments.
pub mod Logins
pub mod Addresses
use personalblockchain.Prelude.{
  ℕ, ◌+◌, ◌*◌, Bool, true, false, not, ◌&&◌, ◌||◌, Option, none, some, List, [], ◌∷◌, ◌++◌, Text,
  codes, text_eq, length, take, drop, all, ltb, leb, ◌==◌, decimal, to_lower, if◌then◌else◌, ◌>>=◌,
}
use personalblockchain.Prelude.Map.{Map, lookup, insert, erase}
use personalblockchain.Platform.{Platform}
use personalblockchain.Json.{Json}
use personalblockchain.Crypto.{KeyPair, generate_key_pair, sha256, sign, verify}

pub record ChallengeRecord : Type 0 where
  pub address : Text
  pub public_key : Text
  -- In nanoseconds since 1970.
  pub expires_at : ℕ

-- `challengeStore_`, in the order of its keys, which no call shows.
abbrev pub Challenges : Type 0
Challenges = Map ChallengeRecord

abbrev pub is_hex_digit : ℕ → Bool
is_hex_digit c =
    (leb b'0' c && leb c b'9') || (leb b'a' c && leb c b'f') || (leb b'A' c && leb c b'F')

unfoldable pub is_valid_private_key_hex : Text → Bool
is_valid_private_key_hex key = length key == 64 && all is_hex_digit key

unfoldable pub is_valid_wallet_address : Text → Bool
is_valid_wallet_address address =
    text_eq (take 4 address) (codes "PCN_")
    && length (drop 4 address) == 40
    && all is_hex_digit (drop 4 address)

-- A `Wallet`, as the pair of its keys.
unfoldable pub create_wallet : Option (Text × Text) → Option KeyPair
create_wallet drawn = generate_key_pair drawn

module _ (P : Platform) where
  -- The constructor from a private key; nothing where it throws.
  unfoldable pub wallet_of : Text → Option KeyPair
  wallet_of private_key_hex = do
    point ← P.public_point private_key_hex
    some (record { private_key = private_key_hex; public_key = to_lower point })

  unfoldable pub import_wallet : Text → Option KeyPair
  import_wallet private_key_hex =
      if is_valid_private_key_hex private_key_hex then wallet_of private_key_hex else none

  unfoldable pub sign_data : KeyPair → Text → Option Text
  sign_data wallet message = sign P message wallet.private_key

  unfoldable pub address_from_public_key : Text → Text
  address_from_public_key public_key = codes "PCN_" ++ take 40 (sha256 P public_key)

  -- Nothing where it throws.
  unfoldable pub create_login_challenge :
      ℕ → Text → Text → Text → Challenges → Option (Challenges × Text)
  create_login_challenge now random_challenge address public_key store =
      if not (text_eq (address_from_public_key public_key) address)
      then none
      else some (
        insert random_challenge
            (record {
              address = address;
              public_key = public_key;
              expires_at = now + 5 * 60 * 1_000_000_000;
            })
            store,
        random_challenge,
      )

  unfoldable pub token : ℕ → Text → Text
  token now address = sha256 P (address ++ b':' ∷ decimal now)

  unfoldable pub verify_login :
      ℕ → Text → Text → Text → Text → Challenges → Challenges × Option Text
  verify_login now address public_key challenge signature_hex store =
      elim (lookup challenge store) [
        | none ↦ (store, none)
        | some r ↦
            if ltb r.expires_at now
            then (erase challenge store, none)
            else if not (text_eq r.address address) || not (text_eq r.public_key public_key)
            then (erase challenge store, none)
            else if not (text_eq (address_from_public_key public_key) address)
            then (erase challenge store, none)
            else if not (verify P challenge signature_hex public_key)
            then (erase challenge store, none)
            else (erase challenge store, some (token now address))
      ]

  -- The address, the public key and the token of a login with a private key.
  pub record KeyLogin : Type 0 where
    pub address : Text
    pub public_key : Text
    pub token : Text

  -- Nothing where it throws; inside, nothing where it returns none.
  unfoldable pub verify_private_key_login : ℕ → Text → Option (Option KeyLogin)
  verify_private_key_login now private_key_hex =
      if not (is_valid_private_key_hex private_key_hex) then some none else do
        wallet ← wallet_of private_key_hex
        let address = address_from_public_key wallet.public_key
        some (
            some (record {
              address = address;
              public_key = wallet.public_key;
              token = token now address;
            }))

unfoldable pub to_json : {J : Type 0} → Json J → KeyPair → Text
to_json json wallet =
    json.dump none (json.set (codes "publicKey") (json.text wallet.public_key) json.object)
