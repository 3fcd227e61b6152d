-- ===== src/Network/NodeIdentity/Restart.antt =====
-- The identity of a node over its restarts (src/network/node_identity.cpp).
use personalblockchain.Prelude.{
  ℕ, ◌≡◌, ◌∙◌, refl, inl, inr, Bool, true, false, Option, none, some, [], ◌∷◌, Text, is_empty,
  text_eq, to_lower, Option-cases, arith,
}
use personalblockchain.Json.{Json, IsLawful}
use personalblockchain.Platform.{Platform}
use personalblockchain.Crypto.{generate_key_pair, bytes_to_hex, sha256}
use personalblockchain.Wallet.{create_wallet}
use personalblockchain.Network.NodeIdentity.{
  NodeIdentityRecord, chosen_ip, file_of, persist, load, create, choose, identity_of,
  load_or_create,
}

abbrev IsComplete : NodeIdentityRecord → Type 0
IsComplete r =
    (is_empty r.public_key ≡ false)
    × (is_empty r.private_key ≡ false)
    × (is_empty r.node_id ≡ false)

-- The identity under another port, and another address where one is given.
abbrev pub moved : ℕ → Text → NodeIdentityRecord → NodeIdentityRecord
moved port override r = record r { advertised_ip = chosen_ip override r.advertised_ip; port = port }

to_lower-is_empty : (s : Text) → is_empty (to_lower s) ≡ is_empty s
unfolding to_lower
to_lower-is_empty [] = refl
to_lower-is_empty (c ∷ s) = refl

bytes_to_hex-is_empty : (s : Text) → is_empty (bytes_to_hex s) ≡ is_empty s
unfolding bytes_to_hex
bytes_to_hex-is_empty [] = refl
bytes_to_hex-is_empty (c ∷ s) = refl

module _ {J : Type 0} (json : Json J) (laws : IsLawful json) where
  load-file_of :
      (port : ℕ) (override : Text) (r : NodeIdentityRecord)
      → IsComplete r
      → load json port override (file_of json r) ≡ some (moved port override r)
  unfolding load file_of text_eq
  load-file_of port override r (public, private, id) = simp (
    laws.read-dump, laws.value_text-set_text, laws.value_text-set_ne, laws.value_number-set_number,
    laws.value_number-set_ne, laws.value_integer-set_integer, laws.value_integer-set_ne, public,
    private, id,
  )

  load-IsComplete :
      (port : ℕ) (override text : Text) (r : NodeIdentityRecord)
      → load json port override text ≡ some r
      → IsComplete r
  unfolding load
  load-IsComplete port override text r e = ground arith

  module _ (P : Platform) (hashed : (s : Text) → is_empty (P.digest s) ≡ false) where
    create-IsComplete :
        (port : ℕ) (override : Text) (drawn : Option (Text × Text)) (r : NodeIdentityRecord)
        → ((a b : Text) → drawn ≡ some (a, b) → (is_empty a ≡ false) × (is_empty b ≡ false))
        → create json P port override drawn ≡ some r
        → IsComplete r
    unfolding create create_wallet generate_key_pair sha256
    create-IsComplete port override none r filled e = absurd (cc)
    create-IsComplete port override (some (a, b)) r filled e =
        let (private, public) = filled a b refl in
        let lowered = to_lower-is_empty b in
        let made : r
            ≡ identity_of json P port override
                (record { private_key = to_lower a; public_key = to_lower b }) =
          ground arith in
        rw made (
          lowered ∙ public,
          to_lower-is_empty a ∙ private,
          bytes_to_hex-is_empty (P.digest (to_lower b)) ∙ hashed (to_lower b),
        )

    choose-IsComplete :
        (port : ℕ) (override : Text) (drawn : Option (Text × Text)) (file : Option Text)
        (r : NodeIdentityRecord)
        → ((a b : Text) → drawn ≡ some (a, b) → (is_empty a ≡ false) × (is_empty b ≡ false))
        → choose json P port override drawn file ≡ some r
        → IsComplete r
    unfolding choose
    choose-IsComplete port override drawn none r filled e =
        create-IsComplete port override drawn r filled e
    choose-IsComplete port override drawn (some text) r filled e =
        elim (Option-cases (load json port override text)) [
          | inl out ↦ create-IsComplete port override drawn r filled (ground arith)
          | inr (loaded, read) ↦ load-IsComplete port override text r (ground arith)
        ]

    -- A node that could write its identity has the same keys, the same identifier and the same
    -- reputation at its next start, under the port and, where one is given, the address of then, if
    -- the JSON library does as documented, the keys that are drawn are not empty and no hash is.
    pub load_or_create-restart :
        (port : ℕ) (override : Text) (drawn : Option (Text × Text)) (file text : Option Text)
        (r : NodeIdentityRecord)
        → ((a b : Text) → drawn ≡ some (a, b) → (is_empty a ≡ false) × (is_empty b ≡ false))
        → load_or_create json P true port override drawn file ≡ some (r, (text, true))
        → (writable : Bool) (next_port : ℕ) (next_override : Text)
          (next_drawn : Option (Text × Text))
        → load_or_create json P writable next_port next_override next_drawn text
          ≡ some (
            moved next_port next_override r,
            persist json writable (moved next_port next_override r) text,
          )
    unfolding load_or_create persist choose
    load_or_create-restart port override drawn file text r filled e writable next_port next_override
          next_drawn =
        elim (Option-cases (choose json P port override drawn file)) [
          | inl out ↦ absurd (ground arith)
          | inr (first, chosen) ↦
              let same : r ≡ first = ground arith in
              let written : text ≡ some (file_of json first) = ground arith in
              let complete = choose-IsComplete port override drawn file first filled chosen in
              rw
                (
                  written,
                  same,
                  load_or_create,
                  choose,
                  load-file_of next_port next_override first complete,
                )
                refl
        ]
