-- ===== src/Block/Serial.antt =====
-- `Block::toJson` and `Block::fromJson` (src/block/block.cpp).
use personalblockchain.Prelude.{
  ◌>>=◌, ◌%◌, ◌<◌, u32_mod, arith, ◌≡◌, refl, ◌∙◌, Option, none, some, List, [], ◌∷◌, codes,
  text_eq, map,
}
use personalblockchain.Platform.{Platform}
use personalblockchain.Json.{Json, IsLawful, read_all, read_all-map}
use personalblockchain.Transaction.{Transaction}
use personalblockchain.Transaction.Serial
use personalblockchain.Transaction.Serial.{
  IsComplete, complete, from_json-to_json, complete-IsComplete,
}
use personalblockchain.Block.{Block}

-- A block once it has been read back.
abbrev pub complete_all : Platform → Block → Block
complete_all P b = record b {
  transactions = map (complete P) b.transactions;
  difficulty = b.difficulty % u32_mod;
}

-- Every transaction of the block names its addresses and an amount.
abbrev pub AreComplete : List Transaction → Type 0
AreComplete [] = Unit {0}
AreComplete (tx ∷ txs) = IsComplete tx × AreComplete txs

map-complete :
    (P : Platform) (txs : List Transaction) → AreComplete txs → map (complete P) txs ≡ txs
map-complete P [] h = refl
map-complete P (tx ∷ txs) h = rw (complete-IsComplete P tx h.0, map-complete P txs h.1) refl

module _ {J : Type 0} (json : Json J) (P : Platform) where
  unfoldable pub to_json : Block → J
  to_json b =
      json.set (codes "transactions") (json.array (map (Serial.to_json json) b.transactions)) (
        json.set (codes "hash") (json.text b.hash) (
          json.set (codes "difficulty") (json.number b.difficulty) (
            json.set (codes "nonce") (json.number b.nonce) (
              json.set (codes "merkleRoot") (json.text b.merkle_root) (
                json.set (codes "previousHash") (json.text b.previous_hash) (
                  json.set (codes "timestamp") (json.text b.timestamp)
                    (json.set (codes "index") (json.number b.index) json.object)))))))

  -- No transactions where the member is missing or no array.
  unfoldable pub read_transactions : J → Option (List Transaction)
  read_transactions member = elim (json.elements member) [
    | none ↦ some []
    | some values ↦ read_all (Serial.from_json json P) values
  ]

  unfoldable pub from_json : J → Option Block
  from_json j = do
    index ← json.value_number j (codes "index") 0
    timestamp ← json.value_text j (codes "timestamp") []
    previous_hash ← json.value_text j (codes "previousHash") []
    merkle_root ← json.value_text j (codes "merkleRoot") []
    nonce ← json.value_number j (codes "nonce") 0
    difficulty ← json.value_number j (codes "difficulty") 1
    hash ← json.value_text j (codes "hash") []
    member ← json.value_json j (codes "transactions") json.object
    transactions ← read_transactions member
    some (record {
      index = index;
      timestamp = timestamp;
      previous_hash = previous_hash;
      transactions = transactions;
      merkle_root = merkle_root;
      nonce = nonce;
      difficulty = difficulty % u32_mod;
      hash = hash;
    })

  read_transactions-array :
      (txs : List Transaction)
      → IsLawful json
      → read_transactions (json.array (map (Serial.to_json json) txs)) ≡ some (map (complete P) txs)
  unfolding read_transactions
  read_transactions-array txs v =
      rw (v.elements-array, read_transactions)
        (read_all-map (Serial.from_json json P) (Serial.to_json json) (complete P) txs
          (λ tx. from_json-to_json json P tx v))

  -- A block is read back as it was written, with the repairs for older entries made in its
  -- transactions and its difficulty cut to 32 bits.
  pub from_json-complete_all :
      (b : Block) → IsLawful json → from_json (to_json b) ≡ some (complete_all P b)
  unfolding from_json to_json text_eq
  from_json-complete_all b v = simp (
    v.value_text-set_text,
    v.value_number-set_number,
    v.value_json-set,
    v.value_text-set_ne,
    v.value_number-set_ne,
    read_transactions-array b.transactions v,
  )

  -- A block whose transactions name their addresses and an amount, and whose difficulty fits into 32
  -- bits, is read back as it was written, if the JSON library does as documented.
  pub from_json-to_json_block :
      (b : Block)
      → IsLawful json
      → AreComplete b.transactions
      → b.difficulty < u32_mod
      → from_json (to_json b) ≡ some b
  from_json-to_json_block b v h fits =
      let small : b.difficulty % u32_mod ≡ b.difficulty = omega arith in
      from_json-complete_all b v ∙ rw (map-complete P b.transactions h, small) refl
