-- ===== src/Network/NodeIdentity.antt =====
-- src/network/node_identity.cpp and include/network/node_identity.h: the identity of a node, and the
-- file that keeps it. The file is its text, nothing where it cannot be read.
pub mod Restart
use personalblockchain.Prelude.{
  ◌>>=◌, ℕ, ◌%◌, ◌^◌, ◌||◌, Bool, true, false, Option, none, some, [], ◌∷◌, ◌++◌, Text, codes,
  is_empty, decimal, if◌then◌else◌,
}
use personalblockchain.Prelude.Int.{ℤ, pos}
use personalblockchain.Json.{Json}
use personalblockchain.Platform.{Platform}
use personalblockchain.Crypto.{KeyPair, sha256}
use personalblockchain.Wallet.{create_wallet}

pub record NodeIdentityRecord : Type 0 where
  pub node_id : Text
  pub public_key : Text
  pub private_key : Text
  pub advertised_ip : Text
  pub port : ℕ
  pub reputation : ℤ

abbrev detect_advertised_ip : Text
detect_advertised_ip = codes "127.0.0.1"

unfoldable pub endpoint : NodeIdentityRecord → Text
endpoint r = r.advertised_ip ++ b':' ∷ decimal r.port

-- What replaces the address that a file names.
abbrev chosen_ip : Text → Text → Text
chosen_ip override loaded =
    let ip = if is_empty override then loaded else override in
    if is_empty ip then detect_advertised_ip else ip

module _ {J : Type 0} (json : Json J) where
  unfoldable pub to_json : NodeIdentityRecord → J
  to_json r = json.set (codes "nodeId") (json.text r.node_id) (
      json.set (codes "publicKey") (json.text r.public_key) (
        json.set (codes "advertisedIp") (json.text r.advertised_ip) (
          json.set (codes "port") (json.number r.port)
            (json.set (codes "reputation") (json.integer r.reputation) json.object))))

  -- The text of the file.
  unfoldable pub file_of : NodeIdentityRecord → Text
  file_of r =
      json.dump (some 2) (
        json.set (codes "nodeId") (json.text r.node_id) (
          json.set (codes "publicKey") (json.text r.public_key) (
            json.set (codes "privateKey") (json.text r.private_key) (
              json.set (codes "advertisedIp") (json.text r.advertised_ip) (
                json.set (codes "port") (json.number r.port)
                  (json.set (codes "reputation") (json.integer r.reputation) json.object))))))
      ++ 10 ∷ []

  -- The file afterwards, and whether it could be written.
  unfoldable pub persist : Bool → NodeIdentityRecord → Option Text → Option Text × Bool
  persist writable r file = if writable then (some (file_of r), true) else (file, false)

  unfoldable pub set_reputation :
      Bool → ℤ → NodeIdentityRecord → Option Text → NodeIdentityRecord × Option Text
  set_reputation writable reputation r file =
      let changed = record r { reputation = reputation } in
      (changed, (persist writable changed file).0)

  -- What a file holds; nothing where an exception is caught.
  unfoldable pub load : ℕ → Text → Text → Option NodeIdentityRecord
  load listen_port override text = do
    j ← json.read text
    public_key ← json.value_text j (codes "publicKey") []
    private_key ← json.value_text j (codes "privateKey") []
    node_id ← json.value_text j (codes "nodeId") []
    advertised_ip ← json.value_text j (codes "advertisedIp") []
    port ← json.value_number j (codes "port") listen_port
    reputation ← json.value_integer j (codes "reputation") (pos 100)
    let loaded : NodeIdentityRecord = record {
      node_id = node_id;
      public_key = public_key;
      private_key = private_key;
      advertised_ip = chosen_ip override advertised_ip;
      port = listen_port;
      reputation = reputation;
    }
    if is_empty public_key || is_empty private_key || is_empty node_id then none else some loaded

  module _ (P : Platform) where
    abbrev pub identity_of : ℕ → Text → KeyPair → NodeIdentityRecord
    identity_of listen_port override wallet = record {
      node_id = sha256 P wallet.public_key;
      public_key = wallet.public_key;
      private_key = wallet.private_key;
      advertised_ip = if is_empty override then detect_advertised_ip else override;
      port = listen_port;
      reputation = pos 100;
    }

    -- The identity that `drawn` makes; nothing where it throws.
    unfoldable pub create : ℕ → Text → Option (Text × Text) → Option NodeIdentityRecord
    create listen_port override drawn = do
      wallet ← create_wallet drawn
      some (identity_of listen_port override wallet)

    -- The identity in the file, where it can be read and is complete, else a new one.
    unfoldable pub choose :
        ℕ → Text → Option (Text × Text) → Option Text → Option NodeIdentityRecord
    choose listen_port override drawn none = create listen_port override drawn
    choose listen_port override drawn (some text) = elim (load listen_port override text) [
      | some loaded ↦ some loaded
      | none ↦ create listen_port override drawn
    ]

    -- The identity, the file and the result; nothing where it throws.
    unfoldable pub load_or_create :
        Bool
        → ℕ
        → Text
        → Option (Text × Text)
        → Option Text
        → Option (NodeIdentityRecord × (Option Text × Bool))
    load_or_create writable listen_port override drawn file = do
      r ← choose listen_port override drawn file
      some (r, persist writable r file)
